-- ===== src/Text/Address.antt =====
-- `netip.ParseAddr`, as far as it tells an IPv6 address from all other texts. An address that it takes as
-- IPv6 stays one, whether it has a zone or an IPv4 part.
use slush.Base.{
  ℕ, zero, suc, ◌+◌, ◌*◌, ◌-◌, Bool, true, false, not, ◌&&◌, ◌||◌, Option, none, some, [], ◌∷◌,
  ◌==◌, leb, ltb, if◌then◌else◌, ◌≡◌, refl, arith,
}
use slush.Text.Decimal.{is_digit}
use slush.Text.{Bytes, codes, cut, cut_prefix, has_byte}

abbrev is_hex : ℕ → Bool
is_hex c = is_digit c || (leb b'a' c && leb c b'f' || leb b'A' c && leb c b'F')

-- The rest behind the hexadecimal digits, and their number.
abbrev hex_digits : Bytes → ℕ → ℕ × Bytes
hex_digits [] n = (n, [])
hex_digits (c ∷ s) n = let rest = hex_digits s (n + 1) in if is_hex c then rest else (n, c ∷ s)

-- `parseIPv4Fields`: the dots so far, the digits of the field and their number.
abbrev ipv4_fields : Bytes → ℕ → ℕ → ℕ → Bool
ipv4_fields [] dots digits value = dots == 3 && not (digits == 0)
ipv4_fields (c ∷ s) dots digits value =
    let digit = ipv4_fields s dots (digits + 1) (value * 10 + (c - b'0')) in
    let dot = ipv4_fields s (dots + 1) 0 0 in
    if is_digit c
    then not (digits == 1 && value == 0) && (leb (value * 10 + (c - b'0')) 255 && digit)
    else c == b'.' && (not (digits == 0) && (ltb dots 3 && dot))

-- All is read: the ellipsis stands for the groups that are missing, of which there is one at least.
abbrev complete : ℕ → Bool → Bool
complete zero ellipsis = not ellipsis
complete (suc missing) ellipsis = ellipsis

-- An IPv4 address takes the place of the last two groups.
abbrev ipv4_part : ℕ → Bool → Bytes → Bool
ipv4_part zero ellipsis s = false
ipv4_part (suc missing) ellipsis s =
    (ellipsis || missing == 0) && (ipv4_fields s 0 0 0 && complete missing ellipsis)

abbrev after_ellipsis : (Bool → Bytes → Bool) → ℕ → Bytes → Bool
after_ellipsis more missing [] = complete missing true
after_ellipsis more missing (c ∷ rest) = more true (c ∷ rest)

abbrev after_colon : (Bool → Bytes → Bool) → ℕ → Bool → Bytes → Bool
after_colon more missing ellipsis [] = false
after_colon more missing ellipsis (c ∷ rest) =
    if c == b':'
    then if ellipsis then false else after_ellipsis more missing rest
    else more ellipsis (c ∷ rest)

-- Behind the digits of a group comes the end, an IPv4 address whose first digits they are, or a colon.
abbrev after_group : (Bool → Bytes → Bool) → ℕ → Bool → Bytes → Bytes → Bool
after_group more missing ellipsis s [] = complete missing ellipsis
after_group more missing ellipsis s (c ∷ rest) =
    if c == b'.'
    then ipv4_part missing ellipsis s
    else if c == b':'
    then after_colon more missing ellipsis rest
    else false

abbrev group : (Bool → Bytes → Bool) → ℕ → Bool → Bytes → ℕ × Bytes → Bool
group more missing ellipsis s (n, rest) =
    if n == 0 || ltb 4 n then false else after_group more missing ellipsis s rest

-- The loop of `parseIPv6` over the groups, of which so many are missing.
unfoldable pub groups : ℕ → Bool → Bytes → Bool
groups zero ellipsis s = false
groups (suc missing) ellipsis s = group (groups missing) missing ellipsis s (hex_digits s 0)

abbrev behind_start : Option Bytes → Bytes → Bool
behind_start none s = groups 8 false s
behind_start (some []) s = true
behind_start (some (c ∷ rest)) s = groups 8 true (c ∷ rest)

abbrev without_zone : Option (Bytes × Bytes) → Bytes → Bool
without_zone none s = behind_start (cut_prefix s (codes "::")) s
without_zone (some (address, [])) s = false
without_zone (some (address, z ∷ zone)) s = behind_start (cut_prefix address (codes "::")) address

-- The first of the characters that tell the kinds of addresses apart is a colon.
abbrev colon_first : Bytes → Bool
colon_first [] = false
colon_first (c ∷ s) =
    let rest = colon_first s in
    if c == b':' then true else if c == b'.' || c == b'%' then false else rest

-- Whether the text is an address, and `Is6`.
unfoldable pub is_ipv6 : Bytes → Bool
is_ipv6 s = colon_first s && without_zone (cut s (codes "%")) s

colon_first-has_byte : (s : Bytes) → colon_first s ≡ true → has_byte s b':' ≡ true
colon_first-has_byte [] h = h
colon_first-has_byte (c ∷ s) h = ground (arith, colon_first-has_byte s)

-- An IPv6 address has a colon.
pub is_ipv6-has_byte : (s : Bytes) → is_ipv6 s ≡ true → has_byte s b':' ≡ true
unfolding is_ipv6
is_ipv6-has_byte s h = ground (arith, colon_first-has_byte s)

accepted :
    (is_ipv6 (codes "::") ≡ true)
    × (is_ipv6 (codes "::1") ≡ true)
    × (is_ipv6 (codes "fe80::1%eth0") ≡ true)
    × (is_ipv6 (codes "1:2:3:4:5:6:7:8") ≡ true)
    × (is_ipv6 (codes "::ffff:192.0.2.1") ≡ true)
    × (is_ipv6 (codes "1:2:3:4:5:6:192.0.2.1") ≡ true)
    × (is_ipv6 (codes "2001:DB8::") ≡ true)
unfolding is_ipv6 groups cut cut_prefix
accepted = (refl, refl, refl, refl, refl, refl, refl)

refused :
    (is_ipv6 (codes "127.0.0.1") ≡ false)
    × (is_ipv6 (codes ":1") ≡ false)
    × (is_ipv6 (codes "1::2::3") ≡ false)
    × (is_ipv6 (codes "1:2:3:4:5:6:7::8") ≡ false)
    × (is_ipv6 (codes "1:2:3:4:5:6:7:8::") ≡ false)
    × (is_ipv6 (codes "12345::") ≡ false)
    × (is_ipv6 (codes "::192.0.2.01") ≡ false)
    × (is_ipv6 (codes "::1%") ≡ false)
    × (is_ipv6 (codes "::1:") ≡ false)
unfolding is_ipv6 groups cut cut_prefix
refused = (refl, refl, refl, refl, refl, refl, refl, refl, refl)
