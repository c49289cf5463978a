-- ===== src/Address.antt =====
-- Addresses of routers: `is_valid_ip_or_domain` of bot/utils/helpers.py, which a user's input passes
-- before it is stored, and `_is_ssrf_blocked` and `check_router_http` of
-- bot/services/power_monitor.py, which ping what was stored. The regular expressions have no part
-- that can match a dot in two ways, so that they are read off the pieces between the dots.
pub mod Pieces
pub mod Agreement
mod Tests
use voltyk_bot_v3_python.Prelude.{
  ℕ, zero, suc, ◌+◌, ◌*◌, ◌/◌, ◌^◌, ◌-◌, Bool, true, false, not, ◌&&◌, ◌||◌, Option, none, some,
  List, [], ◌∷◌, ltb, leb, ◌==◌, if◌then◌else◌, length, any, all, is_some, is_empty,
}
use voltyk_bot_v3_python.Prelude.Text.{Text}
use mathlib.Core.List.{reverse}

-- What Python has in tables: str.isspace, the value of a decimal digit of any script (`\d`, which
-- int() reads), and str.isdigit, which holds of more characters.
pub record Unicode : Type 0 where
  pub is_space : ℕ → Bool
  pub decimal : ℕ → Option ℕ
  pub is_digit : ℕ → Bool

abbrev pub is_ascii_digit : ℕ → Bool
is_ascii_digit c = leb b'0' c && leb c b'9'

abbrev pub is_letter : ℕ → Bool
is_letter c = (leb b'a' c && leb c b'z') || (leb b'A' c && leb c b'Z')

abbrev pub is_alnum : ℕ → Bool
is_alnum c = is_ascii_digit c || is_letter c

abbrev skip_space : (ℕ → Bool) → Text → Text
skip_space is_space [] = []
skip_space is_space (c ∷ s) = if is_space c then skip_space is_space s else c ∷ s

abbrev pub stripped : (ℕ → Bool) → Text → Text
stripped is_space s = reverse (skip_space is_space (reverse (skip_space is_space s)))

-- `s.rsplit(":", 1)`, where there is a colon
abbrev pub rsplit_colon : Text → Option (Text × Text)
rsplit_colon [] = none
rsplit_colon (c ∷ s) =
    let later = rsplit_colon s in
    elim later [
      | some (host, port) ↦ some (c ∷ host, port)
      | none ↦ if c == b':' then some ([], s) else none
    ]

-- `s.split(".")`
abbrev pub cons_head : ℕ → List Text → List Text
cons_head c [] = (c ∷ []) ∷ []
cons_head c (p ∷ ps) = (c ∷ p) ∷ ps

abbrev pub split_dots : Text → List Text
split_dots [] = [] ∷ []
split_dots (c ∷ s) = if c == b'.' then [] ∷ split_dots s else cons_head c (split_dots s)

-- `$` also matches before a newline at the end
abbrev pub chomp : Text → Text
chomp [] = []
chomp (c ∷ []) = if c == 10 then [] else c ∷ []
chomp (c ∷ d ∷ s) = c ∷ chomp (d ∷ s)

-- `ipaddress.IPv4Address(s)` as a number: four decimal octets without leading zeros
abbrev pub ascii_number : ℕ → Text → ℕ
ascii_number acc [] = acc
ascii_number acc (c ∷ s) = ascii_number (10 * acc + (c - b'0')) s

abbrev pub leading_zero : Text → Bool
leading_zero [] = false
leading_zero (c ∷ []) = false
leading_zero (c ∷ d ∷ s) = c == b'0'

abbrev pub is_octet : Text → Bool
is_octet p =
    not (is_empty p)
    && all is_ascii_digit p
    && leb (length p) 3
    && not (leading_zero p)
    && leb (ascii_number 0 p) 255

abbrev pub address_of : ℕ → List Text → ℕ
address_of acc [] = acc
address_of acc (p ∷ ps) = address_of (256 * acc + ascii_number 0 p) ps

unfoldable pub ipv4_address : Text → Option ℕ
ipv4_address s =
    let pieces = split_dots s in
    if length pieces == 4 && all is_octet pieces then some (address_of 0 pieces) else none

-- `SSRF_BLOCKED_NETWORKS`, as addresses with the number of bits that are free
abbrev pub ssrf_blocked_networks : List (ℕ × ℕ)
ssrf_blocked_networks =
    (2_130_706_432, 24)
    ∷ (2_851_995_648, 16)
    ∷ (0, 24)
    ∷ (4_026_531_840, 28)
    ∷ (4_294_967_295, 0)
    ∷ []

abbrev pub in_network : ℕ → ℕ × ℕ → Bool
in_network address net = address / 2 ^ net.1 == net.0 / 2 ^ net.1

abbrev pub is_blocked_address : Option ℕ → Bool
is_blocked_address none = false
is_blocked_address (some address) = any (in_network address) ssrf_blocked_networks

-- `_is_ssrf_blocked`
abbrev pub is_ssrf_blocked : Text → Bool
is_ssrf_blocked host = is_blocked_address (ipv4_address host)

-- a label of `_DOMAIN_RE`, and its last piece
abbrev pub ends_alnum : Text → Bool
ends_alnum [] = false
ends_alnum (c ∷ []) = is_alnum c
ends_alnum (c ∷ d ∷ s) = ends_alnum (d ∷ s)

abbrev pub starts_alnum : Text → Bool
starts_alnum [] = false
starts_alnum (c ∷ s) = is_alnum c

abbrev pub is_label : Text → Bool
is_label p = starts_alnum p && ends_alnum p && all (λ c. is_alnum c || c == b'-') p

abbrev pub is_top_level : Text → Bool
is_top_level p = leb 2 (length p) && all is_letter p

-- labels, and then at the end a top level; there are two pieces at least
abbrev pub are_labels : List Text → Bool
are_labels [] = false
are_labels (p ∷ []) = is_top_level p
are_labels (p ∷ q ∷ ps) = is_label p && are_labels (q ∷ ps)

abbrev pub is_domain : Text → Bool
is_domain host = leb 2 (length (split_dots (chomp host))) && are_labels (split_dots (chomp host))

pub data Kind : Type 0 where
  ip domain : Kind

-- what `is_valid_ip_or_domain` returns, or the ValueError of int()
pub data Verdict : Type 0 where
  valid : Text → Kind → Text → Option ℕ → Verdict
  has_space bad_port bad_address bad_format raises : Verdict

module _ (py : Unicode) where
  abbrev pub is_decimal : ℕ → Bool
  is_decimal c = is_some (py.decimal c)

  -- `int(s)` of characters that are digits, and not empty
  abbrev pub int_from : ℕ → Text → Option ℕ
  int_from acc [] = some acc
  int_from acc (c ∷ s) = elim (py.decimal c) [ none ↦ none | some d ↦ int_from (10 * acc + d) s ]

  -- a piece of `_IP_RE`, and its value
  abbrev pub is_group : Text → Bool
  is_group p = not (is_empty p) && leb (length p) 3 && all is_decimal p

  abbrev pub fits_octet : Option ℕ → Bool
  fits_octet none = false
  fits_octet (some n) = leb n 255

  -- `_IP_RE.match(host)` with every octet in range
  abbrev pub is_ip : Text → Bool
  is_ip host =
      let pieces = split_dots (chomp host) in
      length pieces == 4 && all is_group pieces && all (λ p. fits_octet (int_from 0 p)) pieces

  -- the end of `is_valid_ip_or_domain`
  abbrev pub verdict_on : Text → Text → Option ℕ → Verdict
  verdict_on address host port =
      if is_ip host
      then (if is_ssrf_blocked host then bad_address else valid address ip host port)
      else if is_domain host
      then valid address domain host port
      else bad_format

  abbrev pub with_port : Text → Text → Option ℕ → Verdict
  with_port address host none = raises
  with_port address host (some port) =
      if leb 1 port && leb port 65535 then verdict_on address host (some port) else bad_port

  abbrev pub is_digits : Text → Bool
  is_digits s = not (is_empty s) && all py.is_digit s

  abbrev pub after_split : Text → Option (Text × Text) → Verdict
  after_split address none = verdict_on address address none
  after_split address (some (host, port)) =
      if is_digits port
      then with_port address host (int_from 0 port)
      else verdict_on address address none

  unfoldable pub is_valid_ip_or_domain : Text → Verdict
  is_valid_ip_or_domain input =
      let address = stripped py.is_space input in
      if any (λ c. c == b' ') address then has_space else after_split address (rsplit_colon address)

  -- `^(.+):(\d+)$` on what is stored: the host and the port to ping
  abbrev pub or_default : Text → Text → Option ℕ → Text × ℕ
  or_default router_ip host none = (router_ip, 80)
  or_default router_ip host (some port) = (host, port)

  abbrev pub is_match : Text → Text → Bool
  is_match host port =
      not (is_empty host)
      && not (any (λ c. c == 10) host)
      && not (is_empty (chomp port))
      && all is_decimal (chomp port)

  abbrev pub target_of : Text → Option (Text × Text) → Text × ℕ
  target_of router_ip none = (router_ip, 80)
  target_of router_ip (some (host, port)) =
      if is_match host port
      then or_default router_ip host (int_from 0 (chomp port))
      else (router_ip, 80)

  unfoldable pub target : Text → Text × ℕ
  target router_ip = target_of router_ip (rsplit_colon router_ip)

  -- `check_router_http`, where `reach` tells which hosts and ports answer; an empty text is None
  unfoldable pub check_router_http : (Text → ℕ → Bool) → Option Text → Option Bool
  check_router_http reach none = none
  check_router_http reach (some []) = none
  check_router_http reach (some (c ∷ s)) =
      let (host, port) = target (c ∷ s) in
      some (if is_ssrf_blocked host then false else reach host port)
