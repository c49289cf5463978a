-- ===== src/Json.antt =====
-- Values that `json.loads` returns. Numbers that are not integers are left out.
use voltyk_bot_v3_python.Prelude.{
  Bool, true, false, not, Option, none, some, if◌then◌else◌, is_empty, ◌==◌, List, [], ◌∷◌,
}
use voltyk_bot_v3_python.Prelude.Int.{ℤ, pos, negsuc}
use voltyk_bot_v3_python.Prelude.Text.{Text, text_eq}

mutual
  pub data Json : Type 0 where
    null : Json
    bool : Bool → Json
    num : ℤ → Json
    str : Text → Json
    arr : Items → Json
    obj : Fields → Json

  pub data Items : Type 0 where
    nil : Items
    cons : Json → Items → Items

  pub data Fields : Type 0 where
    done : Fields
    field : Text → Json → Fields → Fields

-- `d.get(k)`, where a missing key is None as well
abbrev pub field_of : Text → Fields → Json
field_of k done = null
field_of k (field j v fs) = if text_eq j k then v else field_of k fs

-- `d.get(k, default)`
abbrev pub field_or : Text → Fields → Json → Json
field_or k done default = default
field_or k (field j v fs) default = if text_eq j k then v else field_or k fs default

-- `d.keys()`
abbrev pub keys_of : Fields → List Text
keys_of done = []
keys_of (field k v fs) = k ∷ keys_of fs

-- `bool(v)`
abbrev pub truthy : Json → Bool
truthy null = false
truthy (bool b) = b
truthy (num (pos n)) = not (n == 0)
truthy (num (negsuc n)) = true
truthy (str s) = not (is_empty s)
truthy (arr nil) = false
truthy (arr (cons v vs)) = true
truthy (obj done) = false
truthy (obj (field k v fs)) = true

-- `v` where `isinstance(v, dict)` and it is not empty
abbrev pub full_dict : Json → Option Fields
full_dict (obj (field k v fs)) = some (field k v fs)
full_dict _ = none

-- `v == s` for a text
abbrev pub is_text : Text → Json → Bool
is_text s (str t) = text_eq t s
is_text s _ = false
