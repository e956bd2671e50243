-- ===== src/Values/Forward/Hosts.antt =====
-- The addresses in a forward: as text, and as `forwardHost` reads them.
use slush.Base.{
  all, ◌-◌, true, false, [], ◌∷◌, ◌++◌, ◌≡◌, ◌≢◌, refl, sym, ap, ◌∙◌, subst, arith, length,
  cons-ne-nil, append_assoc, ok, Bool-cases, inl, inr, ◌⊎◌, length-append, take-length_append,
  ok-injective,
}
use slush.Session.Forward.{host_text}
use slush.Text.Compare.{equal_ne, has_suffix-append}
use slush.Text.Address.{is_ipv6, is_ipv6-has_byte}
use slush.Text.{Bytes, codes, contains_any, equal, has_byte, has_prefix, has_suffix}
use slush.Values.Forward.Fields.{NoBrackets, bracketed, IsField, plain, in_brackets}
use slush.Values.Forward.Pieces.{IsPiece, unmarked, marked}
use slush.Values.Forward.{forward_host, bracketed_host, unbracketed, reserved}
use slush.Text.Decimal.{is_digit}
use slush.Values.{decimal}

-- A name without the reserved characters, or an IPv6 address.
pub data IsHost : Bytes → Type 0 where
  name : {h : Bytes} → h ≢ [] → contains_any h reserved ≡ false → IsHost h
  address : {h : Bytes} → is_ipv6 h ≡ true → has_byte h b':' ≡ true → NoBrackets h → IsHost h

unreserved :
    (h : Bytes) → contains_any h reserved ≡ false → NoBrackets h × (has_byte h b':' ≡ false)
unreserved [] e = ((refl, refl), refl)
unreserved (c ∷ h) e =
    let (n, k) = unreserved h (ground arith) in ((ground arith, ground arith), ground arith)

unreserved_prefix : (h : Bytes) → contains_any h reserved ≡ false → has_prefix h (codes "[") ≡ false
unfolding has_prefix
unreserved_prefix [] e = refl
unreserved_prefix (c ∷ h) e = ground arith

unbracketed-bracketed : (h : Bytes) → unbracketed (bracketed h) ≡ h
unbracketed-bracketed h =
    let e : length (bracketed h) - 2 ≡ length h = omega (arith, length-append {0} h (b']' ∷ [])) in
    rw e (take-length_append h (b']' ∷ []))

-- A text with a colon is no number.
decimal-colon : (h : Bytes) → has_byte h b':' ≡ true → decimal h ≡ false
decimal-colon [] k = refl
decimal-colon (c ∷ h) k = digits (c ∷ h) k
  where
    digits : (s : Bytes) → has_byte s b':' ≡ true → all is_digit s ≡ false
    digits [] j = cc
    digits (d ∷ s) j = ground (arith, digits s)

pub host_text-IsField : {h : Bytes} → IsHost h → IsField (host_text h)
host_text-IsField {h} (name ne free) = let (n, k) = unreserved h free in rw k (plain n k)
host_text-IsField {h} (address v6 colon n) = rw colon (in_brackets h n refl)

bracketed_host-bracketed : (h : Bytes) → is_ipv6 h ≡ true → bracketed_host (bracketed h) ≡ ok h
bracketed_host-bracketed h v6 =
    rw (has_suffix-append (b'[' ∷ h) (codes "]"), unbracketed-bracketed h, v6)

-- A host is read back from its text.
pub forward_host-host_text : {h : Bytes} → IsHost h → forward_host (host_text h) ≡ ok h
unfolding forward_host
forward_host-host_text {h} (name ne free) =
    rw ((unreserved h free).1, equal_ne h [] ne, unreserved_prefix h free, free)
forward_host-host_text {h} (address v6 colon n) =
    rw (colon, equal_ne (bracketed h) [] (cons-ne-nil _ _))
      (unfold has_prefix in bracketed_host-bracketed h v6)

has_suffix-lacks : (y : Bytes) → has_byte y b']' ≡ false → has_suffix y (codes "]") ≡ false
unfolding has_suffix equal
has_suffix-lacks [] h = refl
has_suffix-lacks (c ∷ y) h = ground (arith, has_suffix-lacks y)

-- With a rest that lacks the bracket, the text ends in a bracket only if the rest is empty.
has_suffix-rest :
    (x y : Bytes) → has_byte y b']' ≡ false → has_suffix (x ++ y) (codes "]") ≡ true → y ≡ []
unfolding has_suffix equal
has_suffix-rest x [] n h = refl
has_suffix-rest [] (d ∷ y) n h = ground (arith, has_suffix-lacks (d ∷ y) n)
has_suffix-rest (c ∷ x) (d ∷ y) n h = has_suffix-rest x (d ∷ y) n (ground (arith, not_nil x))
  where
    not_nil : (z : Bytes) → equal (z ++ d ∷ y) [] ≡ false
    not_nil [] = refl
    not_nil (b ∷ z) = refl

prefix_of_unmarked : (v : Bytes) → NoBrackets v → has_prefix v (codes "[") ≡ false
unfolding has_prefix
prefix_of_unmarked [] n = refl
prefix_of_unmarked (c ∷ v) n = ground arith

-- The checks that a bracketed host has passed.
bracketed_host-eq_ok :
    (value : Bytes) {h : Bytes}
    → bracketed_host value ≡ ok h
    → (has_suffix value (codes "]") ≡ true)
      × (is_ipv6 (unbracketed value) ≡ true)
      × (unbracketed value ≡ h)
bracketed_host-eq_ok value e = ground arith

only_brackets :
    {value : Bytes} (x y : Bytes)
    → NoBrackets y
    → value ≡ b'[' ∷ (x ++ b']' ∷ y)
    → has_suffix value (codes "]") ≡ true
    → value ≡ bracketed x
only_brackets {value} x y n shape suffix =
    let regrouped : b'[' ∷ (x ++ b']' ∷ y) ≡ bracketed x ++ y = rw append_assoc in
    let whole : has_suffix (bracketed x ++ y) (codes "]") ≡ true =
      rw (← regrouped) (rw shape at suffix) in
    let no_rest = has_suffix-rest (bracketed x) y n.1 whole in
    shape ∙ ap (λ r. b'[' ∷ (x ++ b']' ∷ r)) no_rest

bracketed_host-colon :
    (value : Bytes) {h : Bytes} → bracketed_host value ≡ ok h → has_byte h b':' ≡ true
bracketed_host-colon value e =
    let (suffix, v6, inner) = bracketed_host-eq_ok value e in
    subst (λ t. has_byte t b':' ≡ true) inner (is_ipv6-has_byte (unbracketed value) v6)

bracketed_host-IsHost :
    {value h : Bytes}
    → IsPiece value
    → has_prefix value (codes "[") ≡ true
    → bracketed_host value ≡ ok h
    → IsHost h
bracketed_host-IsHost {value} (unmarked n) p e = let not_there = prefix_of_unmarked value n in cc
bracketed_host-IsHost {value} {h} (marked x y nx ny shape) p e =
    let (suffix, v6, inner) = bracketed_host-eq_ok value e in
    let whole = only_brackets x y ny shape suffix in
    let inside : unbracketed value ≡ x = ap unbracketed whole ∙ unbracketed-bracketed x in
    let v6' = rw inside at v6 in
    subst IsHost (sym inside ∙ inner) (address v6' (is_ipv6-has_byte x v6') nx)

forward_host-eq_ok :
    (value : Bytes) {h : Bytes}
    → forward_host value ≡ ok h
    → (codes "localhost" ≡ h)
      ⊎ (((has_prefix value (codes "[") ≡ true) × (bracketed_host value ≡ ok h))
          ⊎ ((value ≢ []) × (contains_any value reserved ≡ false) × (value ≡ h)))
unfolding forward_host equal
forward_host-eq_ok [] e = inl (ok-injective e)
forward_host-eq_ok (c ∷ v) e = elim (Bool-cases (has_prefix (c ∷ v) (codes "["))) [
  | inl opens ↦ inr (inl (opens, rw opens at e))
  | inr not_open ↦ elim (Bool-cases (contains_any (c ∷ v) reserved)) [
    | inl bad ↦ let refused = rw (not_open, bad) at e in cc
    | inr free ↦ inr (inr (cons-ne-nil c v, free, ok-injective (rw (not_open, free) at e)))
  ]
]

-- What `forwardHost` accepts of a piece of a forward is a host.
pub forward_host-IsHost : {value h : Bytes} → IsPiece value → forward_host value ≡ ok h → IsHost h
forward_host-IsHost {value} {h} piece e = elim (forward_host-eq_ok value e) [
  | inl default ↦ subst IsHost default (name (cons-ne-nil _ _) refl)
  | inr (inl (opens, inner)) ↦ bracketed_host-IsHost piece opens inner
  | inr (inr (ne, free, same)) ↦ subst IsHost same (name ne free)
]

-- A bind address that is no number is read as an address that is none.
pub forward_host-decimal :
    {value h : Bytes}
    → IsPiece value
    → decimal value ≡ false
    → forward_host value ≡ ok h
    → decimal h ≡ false
forward_host-decimal {value} {h} piece d e = elim (forward_host-eq_ok value e) [
  | inl default ↦ rw (← default) refl
  | inr (inl (opens, inner)) ↦ decimal-colon h (bracketed_host-colon value inner)
  | inr (inr (ne, free, same)) ↦ rw (← same) d
]
