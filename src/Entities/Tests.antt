-- ===== src/Entities/Tests.antt =====
-- A message with tags, read with the ASCII part of Unicode's tables.
use voltyk_bot_v3_python.Prelude.{
  ℕ, ◌+◌, ◌≡◌, refl, ◌&&◌, none, some, [], ◌∷◌, map, leb, ◌==◌, if◌then◌else◌,
}
use voltyk_bot_v3_python.Prelude.Text.{Text, codes, text_eq, is_space}
use voltyk_bot_v3_python.Entities.{
  Tables, Entity, round, rounds, html_to_entities, append_timestamp,
}
use voltyk_bot_v3_python.Entities.Within.{Converts, append_timestamp-Converts}
use voltyk_bot_v3_python.Entities.Escaped.{escape, IsUnescape, html_to_entities-escape}

abbrev lower_char : ℕ → ℕ
lower_char c = if leb b'A' c && leb c b'Z' then c + 32 else c

-- the five names that html.escape writes
abbrev unescape : Text → Text
unescape s =
    if text_eq s (codes "&amp;")
    then codes "&"
    else if text_eq s (codes "&lt;")
    then codes "<"
    else if text_eq s (codes "&gt;")
    then codes ">"
    else if text_eq s (codes "&quot;")
    then codes "\""
    else if text_eq s (codes "&#x27;")
    then codes "'"
    else s

abbrev ascii : Tables
ascii = record {
  is_space = is_space;
  lower = map lower_char;
  is_same_letter = λ a b. lower_char a == lower_char b;
  unescape = unescape;
}

ascii_IsUnescape : IsUnescape unescape
ascii_IsUnescape = record { amp = refl; lt = refl; gt = refl; quot = refl; apos = refl }

abbrev html_text : Text
html_text = codes "🔴 <B>Світло</B> <a HREF='x'>q &amp; r</a> 3 < 4"

abbrev bold : Entity
bold = record {
  entity_type = codes "bold";
  offset = 3;
  length = 6;
  url = none;
  custom_emoji_id = none;
  unix_time = none;
  date_time_format = none;
}

abbrev link : Entity
link = record bold {
  entity_type = codes "text_link";
  offset = 10;
  length = 5;
  url = some (codes "x");
}

converted : html_to_entities ascii html_text ≡ some (codes "🔴 Світло q & r 3 < 4", bold ∷ link ∷ [])
unfolding html_to_entities rounds round
converted = refl

-- a closing tag without a name is an IndexError
unnamed : html_to_entities ascii (codes "a</ >") ≡ none
unfolding html_to_entities rounds round
unnamed = refl

append_timestamp-Converts_example : Converts (append_timestamp ascii html_text 1736500000)
append_timestamp-Converts_example = append_timestamp-Converts ascii html_text 1736500000 refl

html_to_entities-escape_example :
    html_to_entities ascii (escape (codes "<b> & 'c'")) ≡ some (codes "<b> & 'c'", [])
html_to_entities-escape_example = html_to_entities-escape ascii ascii_IsUnescape (codes "<b> & 'c'")
