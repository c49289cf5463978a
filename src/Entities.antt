-- ===== src/Entities.antt =====
-- bot/utils/html_to_entities.py: Telegram's HTML as a plain text with entities, whose offsets
-- count units of UTF-16. Texts are lists of code points, none of which is a surrogate. What
-- Python reads from the tables of Unicode and of HTML's names comes as a parameter.
pub mod Within
pub mod Escaped
mod Tests
use voltyk_bot_v3_python.Prelude.{
  ℕ, zero, suc, ◌+◌, ◌-◌, Bool, true, false, not, ◌&&◌, ◌||◌, Option, none, some, List, [], ◌∷◌,
  ◌++◌, ltb, ◌==◌, if◌then◌else◌, take,
}
use voltyk_bot_v3_python.Prelude.Int.{pos}
use voltyk_bot_v3_python.Prelude.Text.{Text, codes, text_eq, py_str}
use mathlib.Core.List.{reverse}

-- `str.isspace` of a character (which `\s` agrees with), `str.lower`, whether two characters are
-- one letter for re.IGNORECASE, and html.unescape
pub record Tables : Type 0 where
  pub is_space : ℕ → Bool
  pub lower : Text → Text
  pub is_same_letter : ℕ → ℕ → Bool
  pub unescape : Text → Text

-- an entry of the stack; the keys that a tag does not set are None
pub record OpenTag : Type 0 where
  pub tag : Text
  pub entity_type : Text
  pub offset : ℕ
  pub url : Option Text
  pub custom_emoji_id : Option Text

pub record Entity : Type 0 where
  pub entity_type : Text
  pub offset : ℕ
  pub length : ℕ
  pub url : Option Text
  pub custom_emoji_id : Option Text
  pub unix_time : Option ℕ
  pub date_time_format : Option Text

-- the variables of the loop; the top of the stack stands first, the parts of the text are joined
pub record Conversion : Type 0 where
  pub text_parts : Text
  pub utf16_pos : ℕ
  pub stack : List OpenTag
  pub entities : List Entity

abbrev pub empty_conversion : Conversion
empty_conversion = record { text_parts = []; utf16_pos = 0; stack = []; entities = [] }

-- `TAG_MAP.get`
abbrev pub tag_map : Text → Option Text
tag_map t =
    if text_eq t (codes "b") || text_eq t (codes "strong")
    then some (codes "bold")
    else if text_eq t (codes "i") || text_eq t (codes "em")
    then some (codes "italic")
    else if text_eq t (codes "code")
    then some (codes "code")
    else if text_eq t (codes "pre")
    then some (codes "pre")
    else if text_eq t (codes "s") || text_eq t (codes "strike") || text_eq t (codes "del")
    then some (codes "strikethrough")
    else if text_eq t (codes "u") || text_eq t (codes "ins")
    then some (codes "underline")
    else if text_eq t (codes "tg-spoiler")
    then some (codes "spoiler")
    else if text_eq t (codes "blockquote")
    then some (codes "blockquote")
    else none

-- `_utf16_len`
abbrev pub utf16_units : ℕ → ℕ
utf16_units c = if ltb c 0x10000 then 1 else 2

abbrev pub utf16_len : Text → ℕ
utf16_len [] = 0
utf16_len (c ∷ s) = utf16_units c + utf16_len s

-- `s.find(c)`
abbrev pub index_of : ℕ → Text → Option ℕ
index_of c [] = none
index_of c (x ∷ s) =
    let rest = index_of c s in
    if x == c then some 0 else elim rest [ none ↦ none | some k ↦ some (suc k) ]

-- `_append`
abbrev pub append : Text → Conversion → Conversion
append fragment st = record st {
  text_parts = st.text_parts ++ fragment;
  utf16_pos = st.utf16_pos + utf16_len fragment;
}

-- a value that is left out where it is empty
abbrev pub if_any : Option Text → Option Text
if_any none = none
if_any (some []) = none
if_any (some (c ∷ s)) = some (c ∷ s)

-- `entity`; the offset is never past the position
abbrev pub entity_of : ℕ → OpenTag → Entity
entity_of utf16_pos entry = record {
  entity_type = entry.entity_type;
  offset = entry.offset;
  length = utf16_pos - entry.offset;
  url = if_any entry.url;
  custom_emoji_id = if_any entry.custom_emoji_id;
  unix_time = none;
  date_time_format = none;
}

-- the entry of this name next to the top, and the stack without it
abbrev pub pop_tag : Text → List OpenTag → Option (OpenTag × List OpenTag)
pop_tag name [] = none
pop_tag name (entry ∷ stack) =
    if text_eq entry.tag name
    then some (entry, stack)
    else elim (pop_tag name stack) [ none ↦ none | some (found, rest) ↦ some (found, entry ∷ rest) ]

abbrev pub closed : Option (OpenTag × List OpenTag) → Conversion → Conversion
closed none st = st
closed (some (entry, stack)) st = record st {
  stack = stack;
  entities = st.entities ++ (entity_of st.utf16_pos entry ∷ []);
}

abbrev pub close_tag : Text → Conversion → Conversion
close_tag name st = closed (pop_tag name st.stack) st

-- what a tag pushes: its type, and its url or emoji
abbrev pub Opening : Type 0
Opening = Text × Option Text × Option Text

abbrev pub push : Text → Option Opening → Conversion → Conversion
push tag none st = st
push tag (some (entity_type, url, custom_emoji_id)) st = record st {
  stack =
      record {
        tag = tag;
        entity_type = entity_type;
        offset = st.utf16_pos;
        url = url;
        custom_emoji_id = custom_emoji_id;
      }
      ∷ st.stack;
}

abbrev pub or_empty : Option Text → Text
or_empty none = []
or_empty (some s) = s

-- the text before the first character of this kind, or all of it
abbrev pub until : (ℕ → Bool) → Text → Text
until stop [] = []
until stop (c ∷ s) = if stop c then [] else c ∷ until stop s

abbrev pub skip : (ℕ → Bool) → Text → Text
skip gone [] = []
skip gone (c ∷ s) = if gone c then skip gone s else c ∷ s

abbrev pub is_quote : ℕ → Bool
is_quote c = c == b'"' || c == b'\''

-- `([^"']*)["\']`
abbrev pub quoted : Text → Option Text
quoted s = elim (skip (λ c. not (is_quote c)) s) [ [] ↦ none | c ∷ rest ↦ some (until is_quote s) ]

module _ (py : Tables) where
  -- `s.strip()`
  abbrev pub stripped : Text → Text
  stripped s = reverse (skip py.is_space (reverse (skip py.is_space s)))

  -- `s.split()[0]`, where None is its IndexError
  abbrev pub first_word : Text → Option Text
  first_word s = elim (skip py.is_space s) [
    | [] ↦ none
    | c ∷ rest ↦ some (until py.is_space (c ∷ rest))
  ]

  -- `tag_content[1:].strip().lower().split()[0]`, of what follows the slash
  abbrev pub closing_name : Text → Option Text
  closing_name content = first_word (py.lower (stripped content))

  -- `\s*=\s*["\']([^"\']*)["\']`, at the start of the text
  abbrev pub opening_quote : Text → Option Text
  opening_quote [] = none
  opening_quote (c ∷ s) = if is_quote c then quoted s else none

  abbrev pub value_at : Text → Option Text
  value_at s = elim (skip py.is_space s) [
    | [] ↦ none
    | c ∷ rest ↦ if c == b'=' then opening_quote (skip py.is_space rest) else none
  ]

  -- the name, in any case, and then its value
  abbrev pub named_value : Text → Text → Option Text
  named_value [] s = value_at s
  named_value (n ∷ name) [] = none
  named_value (n ∷ name) (c ∷ s) =
      let rest = named_value name s in if py.is_same_letter n c then rest else none

  -- `re.search`, for an attribute
  abbrev pub attribute : Text → Text → Option Text
  attribute name [] = named_value name []
  attribute name (c ∷ s) =
      let later = attribute name s in
      elim (named_value name (c ∷ s)) [ none ↦ later | some v ↦ some v ]

  -- `tag_name` of an opening tag
  abbrev pub opening_name : Text → Text
  opening_name content = py.lower (stripped (until (λ c. c == b' ') content))

  abbrev pub opening : Text → Text → Option Opening
  opening name content =
      if text_eq name (codes "a")
      then some (codes "text_link", some (or_empty (attribute (codes "href") content)), none)
      else if text_eq name (codes "tg-emoji")
      then some (codes "custom_emoji", none, some (or_empty (attribute (codes "emoji-id") content)))
      else elim (tag_map name) [ none ↦ none | some entity_type ↦ some (entity_type, none, none) ]

  abbrev pub open_tag : Text → Conversion → Conversion
  open_tag content st = let name = opening_name content in push name (opening name content) st

  -- what stands between the brackets; None is an IndexError
  abbrev pub close_named : Option Text → Conversion → Option Conversion
  close_named none st = none
  close_named (some name) st = some (close_tag name st)

  abbrev pub handle_tag : Text → Conversion → Option Conversion
  handle_tag [] st = some (open_tag [] st)
  handle_tag (c ∷ content) st =
      if c == b'/' then close_named (closing_name content) st else some (open_tag (c ∷ content) st)

  -- A round of the loop gives how many characters it takes beyond its first, and the new state. It
  -- is at a `<`, with the next `>` that many characters on, or at a `&`, with the next `;`.
  abbrev pub taking : ℕ → Option Conversion → Option (ℕ × Conversion)
  taking k none = none
  taking k (some st) = some (k, st)

  abbrev pub round_of_tag : ℕ → Text → Option ℕ → Conversion → Option (ℕ × Conversion)
  round_of_tag c s none st = some (0, append (c ∷ []) st)
  round_of_tag c s (some k) st = taking (suc k) (handle_tag (take k s) st)

  abbrev pub round_of_name : ℕ → Text → Option ℕ → Conversion → Option (ℕ × Conversion)
  round_of_name c s none st = some (0, append (c ∷ []) st)
  round_of_name c s (some k) st =
      if ltb (suc k) 8
      then some (suc k, append (py.unescape (c ∷ take (suc k) s)) st)
      else some (0, append (c ∷ []) st)

  unfoldable pub round : ℕ → Text → Conversion → Option (ℕ × Conversion)
  round c s st =
      if c == b'<'
      then round_of_tag c s (index_of b'>' s) st
      else if c == b'&'
      then round_of_name c s (index_of b';' s) st
      else some (0, append (c ∷ []) st)

  -- the loop, with the number of characters that a round has taken beyond its first
  unfoldable pub rounds : ℕ → Text → Conversion → Option Conversion
  rounds taken [] st = some st
  rounds zero (c ∷ s) st = elim (round c s st) [
    | none ↦ none
    | some (taken, st') ↦ rounds taken s st'
  ]
  rounds (suc taken) (c ∷ s) st = rounds taken s st

  unfoldable pub html_to_entities : Text → Option (Text × List Entity)
  html_to_entities html = elim (rounds 0 html empty_conversion) [
    | none ↦ none
    | some st ↦ some (st.text_parts, st.entities)
  ]

abbrev pub prefix : Text
prefix = codes "\n\n🔄 Перевірено: "

abbrev pub refresh_entity : Text → Entity
refresh_entity plain_text = record {
  entity_type = codes "custom_emoji";
  offset = utf16_len plain_text + utf16_len (codes "\n\n");
  length = utf16_len (codes "🔄");
  url = none;
  custom_emoji_id = some (codes "5017470156276761427");
  unix_time = none;
  date_time_format = none;
}

abbrev pub time_entity : Text → ℕ → Entity
time_entity plain_text check_time_unix = record {
  entity_type = codes "date_time";
  offset = utf16_len plain_text + utf16_len prefix;
  length = utf16_len (py_str (pos check_time_unix));
  url = none;
  custom_emoji_id = none;
  unix_time = some check_time_unix;
  date_time_format = some (codes "r");
}

unfoldable pub append_timestamp : Tables → Text → ℕ → Option (Text × List Entity)
append_timestamp py html_message check_time_unix = elim (html_to_entities py html_message) [
  | none ↦ none
  | some (plain_text, entities) ↦ some (
    plain_text ++ prefix ++ py_str (pos check_time_unix),
    entities ++ (refresh_entity plain_text ∷ time_entity plain_text check_time_unix ∷ []),
  )
]
