-- ===== src/Text/Decimal.antt =====
-- What the program uses of Go's package strconv, for decimal numbers.
pub mod Itoa
use mathlib.Core.WellFounded.{Acc}
use slush.Base.{
  ℕ, ◌+◌, ◌-◌, ◌*◌, ◌/◌, ◌%◌, ◌^◌, ◌<◌, Bool, ◌&&◌, Option, none, some, List, [], ◌∷◌, ◌++◌, ◌≡◌,
  refl, dite, dec_lt, arith, ◌==◌, leb, ltb, if◌then◌else◌,
}
use slush.Base.Int.{ℤ, pos, negsuc}
use slush.Base.Order.{lt_wf}
use slush.Text.{Bytes, codes}

abbrev pub is_digit : ℕ → Bool
is_digit c = leb b'0' c && leb c b'9'

pub tenth_below : {n : ℕ} → ¬ n < 10 → n / 10 < n
tenth_below h = omega arith

spelled : (n : ℕ) → Acc ◌<◌ n → Bytes
spelled n (Acc.intro _ below) =
    dite (dec_lt n 10) (λ _. (b'0' + n) ∷ [])
      λ h. spelled (n / 10) (below (n / 10) (tenth_below h)) ++ (b'0' + n % 10) ∷ []

-- `strconv.Itoa`, and `%d`, of a number that is not negative.
unfoldable pub itoa : ℕ → Bytes
unfolding spelled lt_wf dec_lt
itoa n = spelled n (lt_wf.apply n)

-- `%d`
unfoldable pub int_text : ℤ → Bytes
int_text (pos n) = itoa n
int_text (negsuc n) = b'-' ∷ itoa (n + 1)

-- The number that a text of digits spells behind `n`.
unfoldable pub read_digits : Bytes → ℕ → Option ℕ
read_digits [] n = some n
read_digits (c ∷ s) n =
    let rest = read_digits s (n * 10 + (c - b'0')) in if is_digit c then rest else none

unfoldable pub unsigned : Bytes → Option ℕ
unfolding read_digits
unsigned [] = none
unsigned (c ∷ s) = read_digits (c ∷ s) 0

-- `strconv.ParseUint` at base 10
unfoldable pub parse_uint : Bytes → ℕ → Option ℕ
parse_uint s bits = elim (unsigned s) [
  | none ↦ none
  | some n ↦ if ltb n (2 ^ bits) then some n else none
]

negated : Option ℕ → Option ℤ
negated none = none
negated (some n) =
    if ltb (2 ^ 63) n then none else if n == 0 then some (pos 0) else some (negsuc (n - 1))

not_negated : Option ℕ → Option ℤ
not_negated none = none
not_negated (some n) = if ltb n (2 ^ 63) then some (pos n) else none

-- `strconv.Atoi`
unfoldable pub atoi : Bytes → Option ℤ
unfolding negated not_negated
atoi [] = none
atoi (c ∷ s) =
    if c == b'-'
    then negated (unsigned s)
    else if c == b'+'
    then not_negated (unsigned s)
    else not_negated (unsigned (c ∷ s))

itoa_test : itoa 67108864 ≡ codes "67108864"
unfolding itoa
itoa_test = refl

atoi_test :
    (atoi (codes "+007") ≡ some (pos 7))
    × (atoi (codes "-3") ≡ some (negsuc 2))
    × (atoi (codes "9223372036854775808") ≡ none)
    × (atoi (codes "1_0") ≡ none)
unfolding atoi unsigned
atoi_test = (refl, refl, refl, refl)
