-- ===== src/Prelude/Text.antt =====
-- Python's str as the list of its code points, `int(s)` and `str(n)`.
use Prim.Native.Char.{code}
use Prim.Native.String.{String}
use Prim.Native.Nat.{ℕ, zero, suc, ◌+◌, ◌-◌, ◌*◌, ◌/◌, ◌%◌}
use mathlib.Core.Logic.{◌≢◌}
use mathlib.Core.Path.{◌≡◌, refl}
use native.Mathlib.Omega.{arith}
use mathlib.Core.Bool.{Bool, true, false, ◌&&◌, ◌||◌}
use mathlib.Core.List.{List, [], ◌∷◌, reverse}
use mathlib.Core.Option.{Option, none, some}
use voltyk_bot_v3_python.Prelude.Tests.{leb, ◌==◌, if◌then◌else◌}
use voltyk_bot_v3_python.Prelude.Int.{ℤ, pos, negsuc, negate}

abbrev pub Text : Type 0
Text = List ℕ

abbrev pub codes : String → Text
codes String.[] = []
codes (String.◌∷◌ c s) = code c ∷ codes s

-- equality of texts, as a test
abbrev pub text_eq : Text → Text → Bool
text_eq [] [] = true
text_eq [] (y ∷ ys) = false
text_eq (x ∷ xs) [] = false
text_eq (x ∷ xs) (y ∷ ys) = x == y && text_eq xs ys

pub text_eq_sound : (s t : Text) → text_eq s t ≡ true → s ≡ t
text_eq_sound [] [] h = refl
text_eq_sound [] (y ∷ ys) h = cc
text_eq_sound (x ∷ xs) [] h = cc
text_eq_sound (x ∷ xs) (y ∷ ys) h = ground (arith, text_eq_sound xs ys)

pub text_eq_complete : (s t : Text) → s ≡ t → text_eq s t ≡ true
text_eq_complete [] [] h = refl
text_eq_complete [] (y ∷ ys) h = cc
text_eq_complete (x ∷ xs) [] h = cc
text_eq_complete (x ∷ xs) (y ∷ ys) h = ground (arith, text_eq_complete xs ys)

-- the test as a decision
pub text_eq-false : (s t : Text) → text_eq s t ≡ false → s ≢ t
text_eq-false s t h e = let h' = text_eq_complete s t e in cc

abbrev dec_from : (s t : Text) (b : Bool) → text_eq s t ≡ b → Dec (s ≡ t)
dec_from s t true h = yes (text_eq_sound s t h)
dec_from s t false h = no (text_eq-false s t h)

unfoldable pub text_dec : Discrete Text
text_dec s t = dec_from s t (text_eq s t) refl

abbrev pub is_digit : ℕ → Bool
is_digit c = leb b'0' c && leb c b'9'

-- ASCII whitespace: tab to carriage return, the separators 28 to 31, and the space
abbrev pub is_space : ℕ → Bool
is_space c = (leb 9 c && leb c 13) || (leb 28 c && leb c 32)

abbrev pub lstrip : Text → Text
lstrip [] = []
lstrip (c ∷ s) = if is_space c then lstrip s else c ∷ s

-- `s.strip()`
abbrev pub strip : Text → Text
strip s = reverse (lstrip (reverse (lstrip s)))

-- Decimal digits, of which `int` lets single underscores stand between two: `prev` tells whether
-- a digit stood just before.
abbrev int_digits : Bool → ℕ → Text → Option ℕ
int_digits prev acc [] = if prev then some acc else none
int_digits prev acc (c ∷ s) =
    if is_digit c || (c == b'_' && prev)
    then int_digits (is_digit c) (if is_digit c then 10 * acc + (c - b'0') else acc) s
    else none

abbrev signed : Text → Option ℤ
signed [] = none
signed (c ∷ s) =
    if c == b'-'
    then elim (int_digits false 0 s) [ none ↦ none | some n ↦ some (negate n) ]
    else elim (int_digits false 0 (if c == b'+' then s else c ∷ s)) [
      | none ↦ none
      | some n ↦ some (pos n)
    ]

-- `int(s)`, where `none` is its ValueError
unfoldable pub py_int : Text → Option ℤ
py_int s = signed (strip s)

-- the decimal digits of n, before `rest`, at most `fuel` of them
abbrev decimal_from : ℕ → ℕ → Text → Text
decimal_from zero n rest = rest
decimal_from (suc fuel) n rest =
    let more = decimal_from fuel (n / 10) ((b'0' + n % 10) ∷ rest) in
    if n / 10 == 0 then (b'0' + n % 10) ∷ rest else more

-- `str(n)`: n + 1 digits are more than enough
unfoldable pub decimal : ℕ → Text
decimal n = decimal_from (suc n) n []

unfoldable pub py_str : ℤ → Text
unfolding decimal
py_str (pos n) = decimal n
py_str (negsuc n) = b'-' ∷ decimal (suc n)
