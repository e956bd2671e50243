-- ===== src/Text/Decimal/Itoa.antt =====
-- `strconv.Itoa` and `strconv.Atoi` together.
use mathlib.Core.Logic.{ite}
use mathlib.Core.WellFounded
use mathlib.Core.WellFounded.{Acc, Acc-prop}
use slush.Base.{
  ℕ, zero, suc, ◌+◌, ◌/◌, ◌%◌, ◌^◌, ◌≤◌, ◌<◌, true, false, some, [], ◌∷◌, ◌++◌, ◌*◌, ◌-◌,
  length-append, ◌≡◌, ◌≢◌, refl, dite, dec_lt, arith, lt→ltb, length, All, all, cons-ne-nil,
}
use slush.Base.Int.{pos}
use slush.Base.Order.{lt_wf}
use slush.Text.{Bytes, has_byte}
use slush.Text.Fields.{IsVisible, IsWord}
use slush.Text.Decimal.{
  is_digit, tenth_below, spelled, itoa, read_digits, unsigned, parse_uint, atoi,
}

spelled_step :
    (n : ℕ) (w : Acc ◌<◌ n) (v : Acc ◌<◌ (n / 10))
    → spelled n w ≡ ite (dec_lt n 10) ((b'0' + n) ∷ []) (spelled (n / 10) v ++ (b'0' + n % 10) ∷ [])
unfolding spelled
spelled_step n (Acc.intro _ below) v = λ i.
    dite (dec_lt n 10) (λ _. (b'0' + n) ∷ [])
      λ h. spelled (n / 10) (Acc-prop (below (n / 10) (tenth_below h)) v i) ++ (b'0' + n % 10) ∷ []

-- One digit stands alone; more are those of the tenth and the last.
itoa_step :
    (n : ℕ) → itoa n ≡ ite (dec_lt n 10) ((b'0' + n) ∷ []) (itoa (n / 10) ++ (b'0' + n % 10) ∷ [])
unfolding itoa
itoa_step n = spelled_step n (lt_wf.apply n) (lt_wf.apply (n / 10))

read_digits-snoc :
    (s : Bytes) (k v d : ℕ)
    → read_digits s k ≡ some v
    → d < 10
    → read_digits (s ++ (b'0' + d) ∷ []) k ≡ some (v * 10 + d)
unfolding read_digits
read_digits-snoc [] k v d h small = ground arith
read_digits-snoc (c ∷ s) k v d h small =
    ground (arith, read_digits-snoc s (k * 10 + (c - b'0')) v d)

read_digits-itoa : (n : ℕ) → read_digits (itoa n) 0 ≡ some n
unfolding read_digits
read_digits-itoa n =
    WellFounded.induction lt_wf {C = λ n. read_digits (itoa n) 0 ≡ some n} n λ m ih.
      ground (arith, itoa_step m, ih (m / 10), read_digits-snoc (itoa (m / 10)) 0 (m / 10) (m % 10))

snoc-ne-nil : (s : Bytes) (c : ℕ) → s ++ c ∷ [] ≢ []
snoc-ne-nil [] c = cons-ne-nil c []
snoc-ne-nil (b ∷ s) c = cons-ne-nil b (s ++ c ∷ [])

all-snoc :
    (s : Bytes) (c : ℕ)
    → all is_digit s ≡ true
    → is_digit c ≡ true
    → all is_digit (s ++ c ∷ []) ≡ true
all-snoc [] c h d = ground arith
all-snoc (b ∷ s) c h d = ground (arith, all-snoc s c)

-- All bytes of a printed number are digits.
pub itoa-all : (n : ℕ) → all is_digit (itoa n) ≡ true
itoa-all n =
    WellFounded.induction lt_wf {C = λ n. all is_digit (itoa n) ≡ true} n
      λ m ih. ground (arith, itoa_step m, ih (m / 10), all-snoc (itoa (m / 10)) (b'0' + m % 10))

pub itoa-ne-nil : (n : ℕ) → itoa n ≢ []
itoa-ne-nil n = ground (arith, itoa_step n, snoc-ne-nil (itoa (n / 10)) (b'0' + n % 10))

pub length-itoa : (k n : ℕ) → n < 10 ^ suc k → length (itoa n) ≤ suc k
length-itoa zero n h = ground (arith, itoa_step n)
length-itoa (suc k) n h = ground (
  arith,
  itoa_step n,
  length-itoa k (n / 10),
  length-append (itoa (n / 10)) ((b'0' + n % 10) ∷ []),
)

unsigned-read_digits : (s : Bytes) → s ≢ [] → unsigned s ≡ read_digits s 0
unfolding unsigned
unsigned-read_digits [] h = absurd (h refl)
unsigned-read_digits (c ∷ s) _ = refl

-- A printed number is read back.
unsigned-itoa : (n : ℕ) → unsigned (itoa n) ≡ some n
unsigned-itoa n = rw (unsigned-read_digits _ (itoa-ne-nil n), read_digits-itoa n)

pub parse_uint-itoa : (n bits : ℕ) → n < 2 ^ bits → parse_uint (itoa n) bits ≡ some n
unfolding parse_uint
parse_uint-itoa n bits h = rw (unsigned-itoa n, parse_uint, lt→ltb _ _ h)

atoi-unsigned :
    (s : Bytes) (n : ℕ)
    → s ≢ []
    → all is_digit s ≡ true
    → unsigned s ≡ some n
    → n < 2 ^ 63
    → atoi s ≡ some (pos n)
unfolding atoi
atoi-unsigned [] n ne d u h = absurd (ne refl)
atoi-unsigned (c ∷ s) n ne d u h = ground arith

pub atoi-itoa : (n : ℕ) → n < 2 ^ 63 → atoi (itoa n) ≡ some (pos n)
atoi-itoa n h = atoi-unsigned (itoa n) n (itoa-ne-nil n) (itoa-all n) (unsigned-itoa n) h

all-IsVisible : (s : Bytes) → all is_digit s ≡ true → All IsVisible s
all-IsVisible [] h = tt
all-IsVisible (c ∷ s) h = ((ground arith, ground arith), all-IsVisible s (ground arith))

pub itoa-IsWord : (n : ℕ) → IsWord (itoa n)
itoa-IsWord n = (all-IsVisible _ (itoa-all n), itoa-ne-nil n)

-- A printed number lacks every byte that is no digit.
pub itoa-lacks : (n b : ℕ) → is_digit b ≡ false → has_byte (itoa n) b ≡ false
itoa-lacks n b h = lacks (itoa n) (itoa-all n)
  where
    lacks : (s : Bytes) → all is_digit s ≡ true → has_byte s b ≡ false
    lacks [] d = refl
    lacks (c ∷ s) d = ground (arith, lacks s)
