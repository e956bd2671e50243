-- ===== src/Text/Compare.antt =====
-- Equality, prefixes and suffixes of texts.
use slush.Base.{
  ◌-◌, true, false, some, [], ◌∷◌, ◌++◌, ◌≡◌, ◌≢◌, ◌↔◌, refl, inl, inr, arith, length,
  take-length_append, length-append, Bool-cases,
}
use slush.Text.{Bytes, equal, cut_prefix, has_prefix, has_suffix, trim_suffix}

pub equal_iff : (a b : Bytes) → (equal a b ≡ true) ↔ (a ≡ b)
unfolding equal
equal_iff [] [] = ground arith
equal_iff (x ∷ a) (y ∷ b) = ground (arith, equal_iff a b)
equal_iff [] (y ∷ b) = ground arith
equal_iff (x ∷ a) [] = ground arith

pub equal_refl : (a : Bytes) → equal a a ≡ true
equal_refl a = (equal_iff a a).1 refl

pub equal_ne : (a b : Bytes) → a ≢ b → equal a b ≡ false
equal_ne a b ne = elim (Bool-cases (equal a b)) [
  | inl same ↦ absurd (ne ((equal_iff a b).0 same))
  | inr differ ↦ differ
]

-- A prefix that is found splits the text.
has_prefix_split : (s p : Bytes) → has_prefix s p ≡ true → (rest : Bytes) × (s ≡ p ++ rest)
unfolding has_prefix
has_prefix_split s [] h = (s, refl)
has_prefix_split [] (c ∷ p) h = absurd (ground arith)
has_prefix_split (d ∷ s) (c ∷ p) h =
    let (rest, e) = has_prefix_split s p (ground arith) in (rest, ground arith)

pub cut_prefix-append : (p s : Bytes) → cut_prefix (p ++ s) p ≡ some s
unfolding cut_prefix
cut_prefix-append [] s = refl
cut_prefix-append (c ∷ p) s = ground (arith, cut_prefix-append p s)

pub cut_prefix-eq_some : (s p : Bytes) {rest : Bytes} → cut_prefix s p ≡ some rest → s ≡ p ++ rest
unfolding cut_prefix
cut_prefix-eq_some s [] h = ground arith
cut_prefix-eq_some [] (c ∷ p) h = cc
cut_prefix-eq_some (d ∷ s) (c ∷ p) {rest} h = ground (arith, cut_prefix-eq_some s p {rest = rest})

has_suffix_self : (p : Bytes) → has_suffix p p ≡ true
unfolding has_suffix
has_suffix_self [] = refl
has_suffix_self (c ∷ p) = ground (arith, equal_refl (c ∷ p))

pub has_suffix-append : (s p : Bytes) → has_suffix (s ++ p) p ≡ true
unfolding has_suffix
has_suffix-append [] p = has_suffix_self p
has_suffix-append (c ∷ s) p = ground (arith, has_suffix-append s p)

pub trim_suffix-append : (s p : Bytes) → trim_suffix (s ++ p) p ≡ s
unfolding trim_suffix
trim_suffix-append s p =
    let e : length (s ++ p) - length p ≡ length s = omega (arith, length-append {0} s p) in
    rw (has_suffix-append, e) (take-length_append s p)
