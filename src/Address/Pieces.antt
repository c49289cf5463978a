-- ===== src/Address/Pieces.antt =====
-- What the pieces of an address can and cannot be.
use voltyk_bot_v3_python.Prelude.{
  ℕ, ◌≡◌, refl, sym, ap, ◌∙◌, Bool, true, false, ◌&&◌, ◌||◌, none, some, List, [], ◌∷◌, arith, ◌==◌,
  length, any, all, is_empty, Bool-cases, Option-cases, inl, inr, ==_iff, if-else,
}
use voltyk_bot_v3_python.Prelude.Text.{Text}
use voltyk_bot_v3_python.Address.{
  is_letter, is_alnum, rsplit_colon, cons_head, split_dots, chomp, is_octet, ipv4_address,
  is_blocked_address, is_ssrf_blocked, is_top_level, are_labels, is_domain,
}

abbrev pub is_newline : ℕ → Bool
is_newline c = c == 10

abbrev pub is_colon : ℕ → Bool
is_colon c = c == b':'

-- lists of characters that are all of one kind
pub all-no :
    (f : ℕ → Bool) (n : ℕ) (s : Text) → f n ≡ false → all f s ≡ true → any (λ c. c == n) s ≡ false
all-no f n [] not_n h = refl
all-no f n (c ∷ s) not_n h =
    let rest = all-no f n s not_n (ground arith) in
    elim (Bool-cases (c == n)) [
      | inl same ↦ let bad : f c ≡ false = ap f ((==_iff c n).0 same) ∙ not_n in ground (arith, bad)
      | inr other ↦ ground (arith)
    ]

pub chomp_id : (s : Text) → any is_newline s ≡ false → chomp s ≡ s
chomp_id [] h = refl
chomp_id (c ∷ []) h = ground arith
chomp_id (c ∷ d ∷ s) h = ap (◌∷◌ c) (chomp_id (d ∷ s) (ground arith))

pub rsplit-any : (s : Text) (x : Text × Text) → rsplit_colon s ≡ some x → any is_colon s ≡ true
rsplit-any [] x e = cc
rsplit-any (c ∷ s) x e = elim (Option-cases (rsplit_colon s)) [
  | inl none' ↦ ground (arith)
  | inr (y, some') ↦ let rest = rsplit-any s y some' in ground (arith)
]

-- a character other than the dot is in one of the pieces
any-cons_head :
    (q : ℕ → Bool) (c : ℕ) (ps : List Text) → any (any q) (cons_head c ps) ≡ q c || any (any q) ps
any-cons_head q c [] = ground arith
any-cons_head q c (p ∷ ps) = ground arith

pub any-split_dots :
    (n : ℕ) (s : Text)
    → (b'.' == n) ≡ false
    → any (λ c. c == n) s ≡ true
    → any (any (λ c. c == n)) (split_dots s) ≡ true
any-split_dots n [] apart h = cc
any-split_dots n (c ∷ s) apart h = elim (Bool-cases (c == b'.')) [
  | inl dot ↦
      let other : (c == n) ≡ false = ap (λ k. k == n) ((==_iff c b'.').0 dot) ∙ apart in
      let rest = any-split_dots n s apart (ground (arith)) in rw dot (ground (arith))
  | inr letter ↦
      rw (letter, any-cons_head (λ k. k == n) c (split_dots s))
        (elim (Bool-cases (c == n)) [
          | inl here ↦ rw here refl
          | inr later ↦ let rest = any-split_dots n s apart (ground (arith)) in ground (arith)
        ])
]

-- no piece of a domain is an octet at the end
top_level-octet : (p : Text) → is_top_level p ≡ true → is_octet p ≡ false
top_level-octet [] h = refl
top_level-octet (c ∷ s) h = ground arith

labels-octets : (ps : List Text) → are_labels ps ≡ true → all is_octet ps ≡ false
labels-octets [] h = cc
labels-octets (p ∷ []) h = let last = top_level-octet p h in ground (arith)
labels-octets (p ∷ q ∷ ps) h = let rest = labels-octets (q ∷ ps) (ground arith) in ground (arith)

labels-no_colon : (ps : List Text) → are_labels ps ≡ true → any (any is_colon) ps ≡ false
labels-no_colon [] h = cc
labels-no_colon (p ∷ []) h =
    let here = all-no is_letter b':' p refl (ground arith) in ground (arith)
labels-no_colon (p ∷ q ∷ ps) h =
    let here = all-no (λ c. is_alnum c || c == b'-') b':' p refl (ground arith) in
    let rest = labels-no_colon (q ∷ ps) (ground arith) in ground (arith)

pub domain-no_ip :
    (host : Text)
    → any is_newline host ≡ false
    → is_domain host ≡ true
    → is_ssrf_blocked host ≡ false
unfolding ipv4_address
domain-no_ip host one_line h =
    let same = chomp_id host one_line in
    let labels : are_labels (split_dots host) ≡ true =
      ap (λ s. are_labels (split_dots s)) (sym same) ∙ ground arith in
    let other = labels-octets (split_dots host) labels in
    ap is_blocked_address (
      if-else (length (split_dots host) == 4 && all is_octet (split_dots host)) _ none
        (ground arith))

pub domain-no_colon :
    (host : Text) → any is_newline host ≡ false → is_domain host ≡ true → any is_colon host ≡ false
domain-no_colon host one_line h =
    let same = chomp_id host one_line in
    let labels : are_labels (split_dots host) ≡ true =
      ap (λ s. are_labels (split_dots s)) (sym same) ∙ ground arith in
    let clear = labels-no_colon (split_dots host) labels in
    elim (Bool-cases (any is_colon host)) [
      | inl colon ↦ let there = any-split_dots b':' host refl colon in cc
      | inr clean ↦ clean
    ]

pub domain_nonempty : (host : Text) → is_domain host ≡ true → is_empty host ≡ false
domain_nonempty [] h = cc
domain_nonempty (c ∷ s) h = refl
