-- ===== src/Entities/Within.antt =====
-- The entities of a text lie within it.
use voltyk_bot_v3_python.Prelude.{
  ℕ, zero, suc, ◌+◌, ◌≤◌, ◌≡◌, refl, ap, Bool, true, not, ◌||◌, ◌&&◌, Option, none, some, List, [],
  ◌∷◌, ◌++◌, arith, ◌==◌, ltb, take, is_some, All, All-append, All-map, Option-cases, inl, inr,
  if-either, subst, if◌then◌else◌,
}
use voltyk_bot_v3_python.Prelude.Int.{pos}
use voltyk_bot_v3_python.Prelude.Text.{Text, py_str}
use voltyk_bot_v3_python.Entities.{
  Tables, OpenTag, Entity, Conversion, empty_conversion, utf16_len, index_of, append, pop_tag,
  closed, Opening, push, open_tag, opening, opening_name, closing_name, close_named, handle_tag,
  taking, round_of_tag, round_of_name, round, rounds, html_to_entities, append_timestamp, prefix,
}

pub utf16_len-append : (s t : Text) → utf16_len (s ++ t) ≡ utf16_len s + utf16_len t
utf16_len-append [] t = omega arith
utf16_len-append (c ∷ s) t = omega (arith, utf16_len-append s t)

-- the position counts the text, and no tag or entity goes beyond it
abbrev pub IsWithin : ℕ → Entity → Type 0
IsWithin end e = e.offset + e.length ≤ end

abbrev IsOpenBefore : ℕ → OpenTag → Type 0
IsOpenBefore end o = o.offset ≤ end

record IsCounted (st : Conversion) : Type 0 where
  position : st.utf16_pos ≡ utf16_len st.text_parts
  stack : All (IsOpenBefore st.utf16_pos) st.stack
  entities : All (IsWithin st.utf16_pos) st.entities

append-IsCounted :
    (fragment : Text) (st : Conversion) → IsCounted st → IsCounted (append fragment st)
append-IsCounted fragment st v = record {
  position = omega (arith, v.position, utf16_len-append st.text_parts fragment);
  stack = All-map (λ o h. omega (arith, h)) st.stack v.stack;
  entities = All-map (λ e h. omega (arith, h)) st.entities v.entities;
}

pop_tag-All :
    (P : OpenTag → Type 0) (name : Text) (entry : OpenTag) (stack rest : List OpenTag)
    → All P stack
    → pop_tag name stack ≡ some (entry, rest)
    → P entry × All P rest
pop_tag-All P name entry [] rest h e = cc
pop_tag-All P name entry (o ∷ stack) rest h e = elim (Option-cases (pop_tag name stack)) [
  | inl none' ↦ ground (arith)
  | inr ((found, below), some') ↦
      let ih = pop_tag-All P name found stack below h.1 some' in ground (arith)
]

close_tag-IsCounted :
    (name : Text) (st : Conversion) (o : Option (OpenTag × List OpenTag))
    → pop_tag name st.stack ≡ o
    → IsCounted st
    → IsCounted (closed o st)
close_tag-IsCounted name st none e v = v
close_tag-IsCounted name st (some (entry, stack)) e v =
    let (before, below) =
      pop_tag-All (IsOpenBefore st.utf16_pos) name entry st.stack stack v.stack e in
    record {
      position = v.position;
      stack = below;
      entities =
          All-append (IsWithin st.utf16_pos) st.entities _ v.entities (omega (arith, before), tt);
    }

push-IsCounted :
    (tag : Text) (o : Option Opening) (st : Conversion) → IsCounted st → IsCounted (push tag o st)
push-IsCounted tag none st v = v
push-IsCounted tag (some (entity_type, url, emoji)) st v = record {
  position = v.position;
  stack = (omega arith, v.stack);
  entities = v.entities;
}

-- a result, with its entities inside its text
abbrev pub Converts : Option (Text × List Entity) → Type 0
Converts o =
    (text : Text) × (entities : List Entity) × (o ≡ some (text, entities))
    × All (IsWithin (utf16_len text)) entities

module _ (py : Tables) where
  -- what stands between brackets is no closing tag without a name
  abbrev pub is_named : Text → Bool
  is_named [] = true
  is_named (c ∷ content) = not (c == b'/') || is_some (closing_name py content)

  -- no `<` is followed by a slash and then only blanks up to the next `>`
  abbrev pub are_named : Text → Bool
  are_named [] = true
  are_named (c ∷ s) =
      (not (c == b'<') || elim (index_of b'>' s) [ none ↦ true | some k ↦ is_named (take k s) ])
      && are_named s

  -- a result, with its state counted
  abbrev Succeeds : Option Conversion → Type 0
  Succeeds o = (st : Conversion) × (o ≡ some st) × IsCounted st

  close_named-Succeeds :
      (o : Option Text) (st : Conversion)
      → is_some o ≡ true
      → IsCounted st
      → Succeeds (close_named py o st)
  close_named-Succeeds none st h v = cc
  close_named-Succeeds (some name) st h v = (_, refl, close_tag-IsCounted name st _ refl v)

  handle_tag-Succeeds :
      (content : Text) (st : Conversion)
      → is_named content ≡ true
      → IsCounted st
      → Succeeds (handle_tag py content st)
  handle_tag-Succeeds [] st h v =
      (_, refl, push-IsCounted _ (opening py (opening_name py []) []) st v)
  handle_tag-Succeeds (c ∷ content) st h v =
      if-either Succeeds (c == b'/') (close_named py (closing_name py content) st)
        (some (open_tag py (c ∷ content) st))
        (λ slash. close_named-Succeeds (closing_name py content) st (ground arith) v)
        (λ other. (
          _,
          refl,
          push-IsCounted _ (opening py (opening_name py (c ∷ content)) (c ∷ content)) st v,
        ))

  abbrev Rounded : Option (ℕ × Conversion) → Type 0
  Rounded o = (k : ℕ) × (st : Conversion) × (o ≡ some (k, st)) × IsCounted st

  taking-Rounded : (k : ℕ) (o : Option Conversion) → Succeeds o → Rounded (taking py k o)
  taking-Rounded k none (st, e, v) = cc
  taking-Rounded k (some st') (st, e, v) = (k, st, ap (λ o. taking py k o) e, v)

  round_of_tag-Rounded :
      (c : ℕ) (s : Text) (st : Conversion) (o : Option ℕ)
      → (elim o [ none ↦ true | some k ↦ is_named (take k s) ]) ≡ true
      → IsCounted st
      → Rounded (round_of_tag py c s o st)
  round_of_tag-Rounded c s st none h v = (0, _, refl, append-IsCounted (c ∷ []) st v)
  round_of_tag-Rounded c s st (some k) h v =
      taking-Rounded (suc k) _ (handle_tag-Succeeds (take k s) st h v)

  round_of_name-Rounded :
      (c : ℕ) (s : Text) (st : Conversion) (o : Option ℕ)
      → IsCounted st
      → Rounded (round_of_name py c s o st)
  round_of_name-Rounded c s st none v = (0, _, refl, append-IsCounted (c ∷ []) st v)
  round_of_name-Rounded c s st (some k) v =
      if-either Rounded (ltb (suc k) 8) (some (suc k, append (py.unescape (c ∷ take (suc k) s)) st))
        (some (0, append (c ∷ []) st)) (λ short. (suc k, _, refl, append-IsCounted _ st v))
        (λ long. (0, _, refl, append-IsCounted (c ∷ []) st v))

  round-Rounded :
      (c : ℕ) (s : Text) (st : Conversion)
      → are_named (c ∷ s) ≡ true
      → IsCounted st
      → Rounded (round py c s st)
  unfolding round
  round-Rounded c s st h v =
      let plain : Rounded (some (0, append (c ∷ []) st)) =
        (0, _, refl, append-IsCounted (c ∷ []) st v) in
      if-either Rounded (c == b'<') (round_of_tag py c s (index_of b'>' s) st)
        (if c == b'&'
          then round_of_name py c s (index_of b';' s) st
          else some (0, append (c ∷ []) st))
        (λ lt. round_of_tag-Rounded c s st (index_of b'>' s) (ground arith) v)
        (λ other.
          if-either Rounded (c == b'&') (round_of_name py c s (index_of b';' s) st)
            (some (0, append (c ∷ []) st)) (λ amp. round_of_name-Rounded c s st (index_of b';' s) v)
            (λ letter. plain))

  rounds-Succeeds :
      (taken : ℕ) (s : Text) (st : Conversion)
      → are_named s ≡ true
      → IsCounted st
      → Succeeds (rounds py taken s st)
  unfolding rounds
  rounds-Succeeds taken [] st h v = (st, refl, v)
  rounds-Succeeds zero (c ∷ s) st h v =
      let (taken, st', done, v') = round-Rounded c s st h v in
      let rest = rounds-Succeeds taken s st' (ground arith) v' in rw (done, rounds) rest
  rounds-Succeeds (suc taken) (c ∷ s) st h v = rounds-Succeeds taken s st (ground arith) v

  html_to_entities-Converts :
      (html : Text) → are_named html ≡ true → Converts (html_to_entities py html)
  unfolding html_to_entities
  html_to_entities-Converts html h =
      let (st, done, v) =
        rounds-Succeeds 0 html empty_conversion h
          (record { position = refl; stack = tt; entities = tt }) in
      rw (done, html_to_entities)
        (
          st.text_parts,
          st.entities,
          refl,
          subst (λ end. All (IsWithin end) st.entities) v.position v.entities,
        )

  -- A message in which no closing tag lacks a name is converted, and each entity of the result,
  -- the refresh sign and the time included, lies within its text.
  pub append_timestamp-Converts :
      (html_message : Text) (check_time_unix : ℕ)
      → are_named html_message ≡ true
      → Converts (append_timestamp py html_message check_time_unix)
  unfolding append_timestamp
  append_timestamp-Converts html_message check_time_unix h =
      let (plain, es, done, within) = html_to_entities-Converts html_message h in
      let lead = utf16_len-append plain prefix in
      let total = utf16_len-append (plain ++ prefix) (py_str (pos check_time_unix)) in
      rw (done, append_timestamp)
        (
          _,
          _,
          refl,
          All-append (IsWithin _) es _ (All-map (λ e b. omega (arith, b, lead, total)) es within)
              (omega (arith, lead, total), (omega (arith, lead, total), tt)),
        )
