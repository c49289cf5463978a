-- ===== src/Entities/Escaped.antt =====
-- What html.escape has made of a text, as formatter/template.py does with each value, comes back
-- unchanged.
use mathlib.Core.List.{append_assoc, append-nil}
use native.Mathlib.Nat.{add_assoc}
use voltyk_bot_v3_python.Prelude.{
  ℕ, ◌+◌, ◌≡◌, refl, sym, ap, ◌∙◌, true, false, some, [], ◌∷◌, ◌++◌, arith, ◌==◌, if-either,
  if◌then◌else◌, ==_iff,
}
use voltyk_bot_v3_python.Prelude.Text.{Text, codes}
use voltyk_bot_v3_python.Entities.{
  Tables, Conversion, empty_conversion, utf16_len, append, round, rounds, html_to_entities,
}
use voltyk_bot_v3_python.Entities.Within.{utf16_len-append}

-- `html.escape`, with its default of quotes
abbrev pub escape_char : ℕ → Text
escape_char c =
    if c == b'&'
    then codes "&amp;"
    else if c == b'<'
    then codes "&lt;"
    else if c == b'>'
    then codes "&gt;"
    else if c == b'"'
    then codes "&quot;"
    else if c == b'\''
    then codes "&#x27;"
    else c ∷ []

unfoldable pub escape : Text → Text
escape [] = []
escape (c ∷ s) = escape_char c ++ escape s

-- what html.unescape is documented to make of the five names that html.escape writes
pub record IsUnescape (unescape : Text → Text) : Type 0 where
  pub amp : unescape (codes "&amp;") ≡ b'&' ∷ []
  pub lt : unescape (codes "&lt;") ≡ b'<' ∷ []
  pub gt : unescape (codes "&gt;") ≡ b'>' ∷ []
  pub quot : unescape (codes "&quot;") ≡ b'"' ∷ []
  pub apos : unescape (codes "&#x27;") ≡ b'\'' ∷ []

module _ (py : Tables) (std : IsUnescape py.unescape) where
  abbrev IsPassed : ℕ → Text → Conversion → Text → Type 0
  IsPassed c s st written = rounds py 0 (written ++ s) st ≡ rounds py 0 s (append (c ∷ []) st)

  -- a name, which is one round and the characters that it takes
  named :
      (c n : ℕ) (s : Text) (st : Conversion) (name : Text)
      → rounds py 0 (name ++ s) st ≡ rounds py 0 s (append (py.unescape name) st)
      → py.unescape name ≡ n ∷ []
      → (c == n) ≡ true
      → IsPassed c s st name
  named c n s st name taken meant same =
      taken
      ∙ ap (λ f. rounds py 0 s (append f st)) (meant ∙ ap (λ k. k ∷ []) (sym ((==_iff c n).0 same)))

  -- a character that is not escaped
  plain :
      (c : ℕ) (s : Text) (st : Conversion)
      → (c == b'&') ≡ false
      → (c == b'<') ≡ false
      → IsPassed c s st (c ∷ [])
  unfolding rounds round
  plain c s st no_amp no_lt = rw (no_amp, no_lt, round, rounds) refl

  rounds-escape_char : (c : ℕ) (s : Text) (st : Conversion) → IsPassed c s st (escape_char c)
  unfolding rounds round
  rounds-escape_char c s st =
      let P = IsPassed c s st in
      if-either P (c == b'&') (codes "&amp;") _ (named c b'&' s st (codes "&amp;") refl std.amp)
        (λ no_amp.
          if-either P (c == b'<') (codes "&lt;") _ (named c b'<' s st (codes "&lt;") refl std.lt)
            (λ no_lt.
              if-either P (c == b'>') (codes "&gt;") _
                (named c b'>' s st (codes "&gt;") refl std.gt)
                (λ no_gt.
                  if-either P (c == b'"') (codes "&quot;") _
                    (named c b'"' s st (codes "&quot;") refl std.quot)
                    (λ no_quot.
                      if-either P (c == b'\'') (codes "&#x27;") (c ∷ [])
                        (named c b'\'' s st (codes "&#x27;") refl std.apos)
                        (λ no_apos. plain c s st no_amp no_lt)))))

  append-append : (f g : Text) (st : Conversion) → append g (append f st) ≡ append (f ++ g) st
  append-append f g st =
      rw
        (
          utf16_len-append f g,
          append_assoc st.text_parts f g,
          add_assoc st.utf16_pos (utf16_len f) (utf16_len g),
        )
        refl

  rounds-escape : (s : Text) (st : Conversion) → rounds py 0 (escape s) st ≡ some (append s st)
  unfolding escape rounds
  rounds-escape [] st =
      let zero_right : st.utf16_pos + 0 ≡ st.utf16_pos = omega arith in
      rw (append-nil st.text_parts, zero_right) refl
  rounds-escape (c ∷ s) st =
      rounds-escape_char c (escape s) st
      ∙ rounds-escape s (append (c ∷ []) st)
      ∙ ap (λ (x : Conversion). some x) (append-append (c ∷ []) s st)

  -- A text that html.escape has escaped, with html.unescape as documented, is converted to the
  -- text itself, without entities.
  pub html_to_entities-escape : (s : Text) → html_to_entities py (escape s) ≡ some (s, [])
  unfolding html_to_entities
  html_to_entities-escape s = rw (rounds-escape s empty_conversion, html_to_entities) refl
