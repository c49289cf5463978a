-- ===== src/Address/Agreement.antt =====
-- The check of what a user enters and the ping of what was stored read an address alike.
use voltyk_bot_v3_python.Prelude.{
  ℕ, ◌+◌, ◌*◌, ◌≡◌, refl, sym, ap, ◌∙◌, true, false, not, ◌&&◌, Option, none, some, List, [], ◌∷◌,
  arith, leb, ◌==◌, if◌then◌else◌, any, all, is_some, is_empty, Bool-cases, Option-cases, inl, inr,
  if-then, if-either,
}
use voltyk_bot_v3_python.Prelude.Text.{Text}
use voltyk_bot_v3_python.Address.{
  Unicode, rsplit_colon, split_dots, is_ssrf_blocked, is_domain, Kind, ip, domain, Verdict, valid,
  has_space, bad_port, bad_address, bad_format, is_decimal, int_from, is_group, is_ip, verdict_on,
  with_port, is_digits, after_split, stripped, is_valid_ip_or_domain, or_default, is_match,
  target_of, target,
}
use voltyk_bot_v3_python.Address.Pieces.{
  is_newline, is_colon, all-no, chomp_id, rsplit-any, any-split_dots, domain-no_ip, domain-no_colon,
  domain_nonempty,
}

-- What is documented of the tables: neither a newline nor a colon is a digit.
pub record IsUnicode (py : Unicode) : Type 0 where
  pub newline : py.decimal 10 ≡ none
  pub colon : py.decimal b':' ≡ none

abbrev pub or_80 : Option ℕ → ℕ
or_80 none = 80
or_80 (some port) = port

-- the host and port that are pinged, none of them blocked
abbrev pub IsPinged : Unicode → Text → Text → Option ℕ → Type 0
IsPinged py address host port =
    (target py address ≡ (host, or_80 port)) × (is_ssrf_blocked host ≡ false)

module _ (py : Unicode) (std : IsUnicode py) where
  groups-no_colon : (ps : List Text) → all (is_group py) ps ≡ true → any (any is_colon) ps ≡ false
  groups-no_colon [] h = refl
  groups-no_colon (p ∷ ps) h =
      let here = all-no (is_decimal py) b':' p (ap is_some std.colon) (ground arith) in
      let rest = groups-no_colon ps (ground arith) in ground (arith)

  ip-no_colon :
      (host : Text) → any is_newline host ≡ false → is_ip py host ≡ true → any is_colon host ≡ false
  ip-no_colon host one_line h =
      let same = chomp_id host one_line in
      let groups : all (is_group py) (split_dots host) ≡ true =
        ap (λ s. all (is_group py) (split_dots s)) (sym same) ∙ ground arith in
      let clear = groups-no_colon (split_dots host) groups in
      elim (Bool-cases (any is_colon host)) [
        | inl colon ↦ let there = any-split_dots b':' host refl colon in cc
        | inr clean ↦ clean
      ]

  ip_nonempty : (host : Text) → is_ip py host ≡ true → is_empty host ≡ false
  ip_nonempty [] h = cc
  ip_nonempty (c ∷ s) h = refl

  -- the number that int() reads is of decimal digits
  int_from-decimal :
      (acc n : ℕ) (s : Text) → int_from py acc s ≡ some n → all (is_decimal py) s ≡ true
  int_from-decimal acc n [] e = refl
  int_from-decimal acc n (c ∷ s) e = elim (Option-cases (py.decimal c)) [
    | inl none' ↦ ground (arith)
    | inr (d, some') ↦
        let rest = int_from-decimal (10 * acc + d) n s (ground (arith)) in ground (arith)
  ]

  -- what is accepted of a host: what the verdict says, and that no ping of it is blocked
  record Accepts (address host : Text) (port : Option ℕ) (a : Text) (h : Text) (p : Option ℕ)
      : Type 0 where
    same_address : address ≡ a
    same_host : host ≡ h
    same_port : port ≡ p
    one_line : any is_newline host ≡ false
    nonempty : is_empty host ≡ false
    no_colon : any is_colon host ≡ false
    unblocked : is_ssrf_blocked host ≡ false

  abbrev Agrees : Text → Text → Option ℕ → Text → Text → Option ℕ → Verdict → Type 0
  Agrees address host port a h p v =
      (k : Kind) → v ≡ valid a k h p → any is_newline h ≡ false → Accepts address host port a h p

  verdict_on-Accepts :
      (address host : Text) (port : Option ℕ) (a h : Text) (p : Option ℕ)
      → Agrees address host port a h p (verdict_on py address host port)
  verdict_on-Accepts address host port a h p =
      if-either (Agrees address host port a h p) (is_ip py host)
        (if is_ssrf_blocked host then bad_address else valid address ip host port)
        (if is_domain host then valid address domain host port else bad_format)
        (λ it.
          if-either (Agrees address host port a h p) (is_ssrf_blocked host) bad_address
            (valid address ip host port) (λ b k e l. cc)
            (λ b k e l.
              let same : host ≡ h = cc in
              let l' : any is_newline host ≡ false = ap (any is_newline) same ∙ l in
              record {
                same_address = cc;
                same_host = same;
                same_port = cc;
                one_line = l';
                nonempty = ip_nonempty host it;
                no_colon = ip-no_colon host l' it;
                unblocked = b;
              }))
        (λ isnt.
          if-either (Agrees address host port a h p) (is_domain host)
            (valid address domain host port) bad_format
            (λ it k e l.
              let same : host ≡ h = cc in
              let l' : any is_newline host ≡ false = ap (any is_newline) same ∙ l in
              record {
                same_address = cc;
                same_host = same;
                same_port = cc;
                one_line = l';
                nonempty = domain_nonempty host it;
                no_colon = domain-no_colon host l' it;
                unblocked = domain-no_ip host l' it;
              })
            (λ it k e l. cc))

  -- an address with a port: the host and the digits
  matched :
      (address host digits : Text) (port : ℕ)
      → rsplit_colon address ≡ some (host, digits)
      → any is_newline host ≡ false
      → is_empty host ≡ false
      → is_digits py digits ≡ true
      → int_from py 0 digits ≡ some port
      → target py address ≡ (host, port)
  unfolding target
  matched address host digits port split one_line some_host all_digits read =
      let decimals = int_from-decimal 0 port digits read in
      let same =
        chomp_id digits (all-no (is_decimal py) 10 digits (ap is_some std.newline) decimals) in
      let matches : is_match py host digits ≡ true =
        ap
          (λ d.
            not (is_empty host)
            && not (any (λ c. c == 10) host)
            && not (is_empty d)
            && all (is_decimal py) d)
          same
        ∙ ground (arith) in
      ap (target_of py address) split
      ∙ if-then (is_match py host digits) _ _ matches
      ∙ ap (λ d. or_default py address host (int_from py 0 d)) same
      ∙ ap (or_default py address host) read

  pinged :
      (address host : Text) (port : Option ℕ) (a h : Text) (p : Option ℕ)
      → Accepts address host port a h p
      → target py address ≡ (host, or_80 port)
      → IsPinged py a h p
  pinged address host port a h p v e = (
    ap (target py) (sym v.same_address)
        ∙ e
        ∙ ap (λ x. (x, or_80 port)) v.same_host
        ∙ ap (λ o. (h, or_80 o)) v.same_port,
    ap is_ssrf_blocked (sym v.same_host) ∙ v.unblocked,
  )

  with_port-IsPinged :
      (address host digits : Text) (o : Option ℕ) (k : Kind) (a h : Text) (p : Option ℕ)
      → rsplit_colon address ≡ some (host, digits)
      → is_digits py digits ≡ true
      → int_from py 0 digits ≡ o
      → with_port py address host o ≡ valid a k h p
      → any is_newline h ≡ false
      → IsPinged py a h p
  with_port-IsPinged address host digits none k a h p split all_digits read e l = cc
  with_port-IsPinged address host digits (some port) k a h p split all_digits read e l =
      if-either (λ v. v ≡ valid a k h p → IsPinged py a h p) (leb 1 port && leb port 65535)
        (verdict_on py address host (some port)) bad_port
        (λ fits e'.
          let v = verdict_on-Accepts address host (some port) a h p k e' l in
          pinged address host (some port) a h p v
            (matched address host digits port split v.one_line v.nonempty all_digits read))
        (λ large e'. cc) e

  after_split-IsPinged :
      (address : Text) (o : Option (Text × Text)) (k : Kind) (a h : Text) (p : Option ℕ)
      → rsplit_colon address ≡ o
      → after_split py address o ≡ valid a k h p
      → any is_newline h ≡ false
      → IsPinged py a h p
  unfolding target
  after_split-IsPinged address none k a h p split e l =
      pinged address address none a h p (verdict_on-Accepts address address none a h p k e l)
        (ap (target_of py address) split)
  after_split-IsPinged address (some (host, digits)) k a h p split e l =
      if-either (λ v. v ≡ valid a k h p → IsPinged py a h p) (is_digits py digits)
        (with_port py address host (int_from py 0 digits)) (verdict_on py address address none)
        (λ all_digits e'.
          with_port-IsPinged address host digits (int_from py 0 digits) k a h p split all_digits
            refl e' l)
        (λ others e'.
          let v = verdict_on-Accepts address address none a h p k e' l in
          let colon = rsplit-any address (host, digits) split in let clear = v.no_colon in cc)
        e

  -- What the check of a user's input accepts, as a host with a port or without, is pinged later at
  -- this very host and port, or at port 80, and is not in a blocked network: if the host has no
  -- newline in it, and neither a newline nor a colon counts as a digit.
  pub is_valid_ip_or_domain-IsPinged :
      (input address : Text) (k : Kind) (host : Text) (port : Option ℕ)
      → is_valid_ip_or_domain py input ≡ valid address k host port
      → any is_newline host ≡ false
      → IsPinged py address host port
  unfolding is_valid_ip_or_domain
  is_valid_ip_or_domain-IsPinged input address k host port e l =
      let entered = stripped py.is_space input in
      if-either (λ v. v ≡ valid address k host port → IsPinged py address host port)
        (any (λ c. c == b' ') entered) has_space (after_split py entered (rsplit_colon entered))
        (λ space e'. cc)
        (λ no_space e'.
          after_split-IsPinged entered (rsplit_colon entered) k address host port refl e' l)
        e
