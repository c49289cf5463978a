-- ===== src/Address/Tests.antt =====
-- Addresses as users enter them, with ASCII's digits and the superscript two, which is a digit of
-- str.isdigit but no decimal one.
use voltyk_bot_v3_python.Prelude.{
  ◌≡◌, ◌-◌, refl, true, ◌||◌, none, some, [], ◌∷◌, ◌++◌, ◌==◌, if◌then◌else◌,
}
use voltyk_bot_v3_python.Prelude.Text.{Text, codes, is_space}
use voltyk_bot_v3_python.Address.{
  Unicode, is_ascii_digit, ipv4_address, ip, domain, Verdict, valid, bad_port, bad_address, raises,
  is_valid_ip_or_domain, target, check_router_http,
}
use voltyk_bot_v3_python.Address.Agreement.{IsUnicode, IsPinged, is_valid_ip_or_domain-IsPinged}

abbrev ascii : Unicode
ascii = record {
  is_space = is_space;
  decimal = λ c. if is_ascii_digit c then some (c - b'0') else none;
  is_digit = λ c. is_ascii_digit c || c == 0xb2;
}

abbrev verdict : Text → Verdict
verdict = is_valid_ip_or_domain ascii

home :
    verdict (codes " 192.168.1.1:8080 ")
    ≡ valid (codes "192.168.1.1:8080") ip (codes "192.168.1.1") (some 8080)
unfolding is_valid_ip_or_domain ipv4_address
home = refl

named :
    verdict (codes "my-router.example.com")
    ≡ valid (codes "my-router.example.com") domain (codes "my-router.example.com") none
unfolding is_valid_ip_or_domain ipv4_address
named = refl

loopback : verdict (codes "127.0.0.1") ≡ bad_address
unfolding is_valid_ip_or_domain ipv4_address
loopback = refl

metadata : verdict (codes "169.254.169.254:80") ≡ bad_address
unfolding is_valid_ip_or_domain ipv4_address
metadata = refl

-- with a leading zero the loopback address passes the check, and the ping is not blocked
loopback_passes :
    verdict (codes "127.0.0.01") ≡ valid (codes "127.0.0.01") ip (codes "127.0.0.01") none
unfolding is_valid_ip_or_domain ipv4_address
loopback_passes = refl

loopback_pinged :
    check_router_http ascii (λ host port. true) (some (codes "127.0.0.01")) ≡ some true
unfolding check_router_http target ipv4_address
loopback_pinged = refl

superscript_raises : verdict (codes "192.168.1.1:" ++ 0xb2 ∷ []) ≡ raises
unfolding is_valid_ip_or_domain ipv4_address
superscript_raises = refl

port_zero : verdict (codes "192.168.1.1:0") ≡ bad_port
unfolding is_valid_ip_or_domain ipv4_address
port_zero = refl

ascii-IsUnicode : IsUnicode ascii
ascii-IsUnicode = record { newline = refl; colon = refl }

is_valid_ip_or_domain-IsPinged_example :
    IsPinged ascii (codes "192.168.1.1:8080") (codes "192.168.1.1") (some 8080)
is_valid_ip_or_domain-IsPinged_example =
    is_valid_ip_or_domain-IsPinged ascii ascii-IsUnicode (codes " 192.168.1.1:8080 ")
      (codes "192.168.1.1:8080") ip (codes "192.168.1.1") (some 8080) home refl
