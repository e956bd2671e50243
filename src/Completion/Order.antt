-- ===== src/Completion/Order.antt =====
-- The order of the completions.
use slush.Base.{true, false, List, [], ◌∷◌, ◌++◌, ◌≡◌, inl, inr, refl, arith, Bool-cases, map}
use slush.Completion.Matching.{before, insert_sorted, sort, fitting}
use slush.Completion.Reading.{holds}
use slush.Completion.Sets.{IsDistinct, holds-cons, holds_cases, not-holds-nil}
use slush.Text.Compare.{equal_iff, equal_refl, equal_ne}
use slush.Text.{Bytes, equal, has_prefix}

-- Every text comes before the next, so that none stands twice.
abbrev pub IsAscending : List Bytes → Type 0
IsAscending [] = Unit
IsAscending (x ∷ []) = Unit
IsAscending (x ∷ y ∷ ys) = (before x y ≡ true) × IsAscending (y ∷ ys)

before_total : (a b : Bytes) → equal a b ≡ false → before a b ≡ false → before b a ≡ true
unfolding before equal
before_total [] [] differ h = absurd (ground arith)
before_total [] (y ∷ b) differ h = absurd (ground arith)
before_total (x ∷ a) [] differ h = refl
before_total (x ∷ a) (y ∷ b) differ h = ground (arith, before_total a b)

holds-insert_sorted :
    (x : Bytes) (ys : List Bytes) (a : Bytes) → holds (insert_sorted x ys) a ≡ holds (x ∷ ys) a
unfolding insert_sorted holds
holds-insert_sorted x [] a = refl
holds-insert_sorted x (y ∷ ys) a = ground (arith, holds-insert_sorted x ys a)

pub holds-sort : (xs : List Bytes) (a : Bytes) → holds (sort xs) a ≡ holds xs a
unfolding sort
holds-sort [] a = refl
holds-sort (x ∷ xs) a = ground (
  arith,
  holds-insert_sorted x (sort xs) a,
  holds-sort xs a,
  holds-cons x xs a,
  holds-cons x (sort xs) a,
)

insert_behind :
    (x y : Bytes) (ys : List Bytes)
    → before y x ≡ true
    → IsAscending (y ∷ ys)
    → IsAscending (insert_sorted x ys)
    → IsAscending (y ∷ insert_sorted x ys)
unfolding insert_sorted
insert_behind x y [] h ys_up up = (h, up)
insert_behind x y (z ∷ zs) h ys_up up = elim (Bool-cases (before z x)) [
  | inl behind ↦ let up' = rw behind at up in rw behind (ys_up.0, up')
  | inr ahead ↦ let up' = rw ahead at up in rw ahead (h, up')
]

tail-IsAscending : (y : Bytes) (ys : List Bytes) → IsAscending (y ∷ ys) → IsAscending ys
tail-IsAscending y [] h = tt
tail-IsAscending y (z ∷ zs) h = h.1

insert_sorted-IsAscending :
    (x : Bytes) (ys : List Bytes)
    → holds ys x ≡ false
    → IsAscending ys
    → IsAscending (insert_sorted x ys)
unfolding insert_sorted
insert_sorted-IsAscending x [] new h = tt
insert_sorted-IsAscending x (y ∷ ys) new h =
    let parts : (equal x y ≡ false) × (holds ys x ≡ false) = ground (arith, holds-cons y ys x) in
    elim (Bool-cases (before y x)) [
      | inl behind ↦ rw behind (
          insert_behind x y ys behind h
            (insert_sorted-IsAscending x ys parts.1 (tail-IsAscending y ys h)))
      | inr ahead ↦
          let other : equal y x ≡ false = equal_ne y x λ e. ground (arith, equal_iff x y) in
          rw ahead (before_total y x other ahead, h)
    ]

pub sort-IsAscending : (xs : List Bytes) → IsDistinct xs → IsAscending (sort xs)
unfolding sort
sort-IsAscending [] h = tt
sort-IsAscending (x ∷ xs) h =
    insert_sorted-IsAscending x (sort xs) (rw holds-sort (h.0)) (sort-IsAscending xs h.1)

pub holds-fitting :
    (prefix : Bytes) (xs : List Bytes) (a : Bytes)
    → holds (fitting prefix xs) a ≡ true
    → (holds xs a ≡ true) × (has_prefix a prefix ≡ true)
unfolding fitting
holds-fitting prefix [] a h = absurd (ground (arith, not-holds-nil a))
holds-fitting prefix (x ∷ xs) a h = ground (
  arith,
  holds-fitting prefix xs a,
  holds-cons x xs a,
  holds-cons x (fitting prefix xs) a,
  equal_iff a x,
)

pub fitting_holds :
    (prefix : Bytes) (xs : List Bytes) (a : Bytes)
    → holds xs a ≡ true
    → has_prefix a prefix ≡ true
    → holds (fitting prefix xs) a ≡ true
unfolding fitting
fitting_holds prefix [] a h begins = h
fitting_holds prefix (x ∷ xs) a h begins = ground (
  arith,
  fitting_holds prefix xs a,
  holds-cons x xs a,
  holds-cons x (fitting prefix xs) a,
  equal_iff a x,
)

pub fitting-IsDistinct :
    (prefix : Bytes) (xs : List Bytes) → IsDistinct xs → IsDistinct (fitting prefix xs)
unfolding fitting
fitting-IsDistinct prefix [] h = h
fitting-IsDistinct prefix (x ∷ xs) h =
    ground (arith, fitting-IsDistinct prefix xs h.1, holds-fitting prefix xs x)

equal-behind : (user a b : Bytes) → equal (user ++ a) (user ++ b) ≡ equal a b
unfolding equal
equal-behind [] a b = refl
equal-behind (c ∷ user) a b = ground (arith, equal-behind user a b)

pub holds-behind :
    (user : Bytes) (xs : List Bytes) (a : Bytes)
    → holds (map (λ x. user ++ x) xs) (user ++ a) ≡ holds xs a
unfolding holds
holds-behind user [] a = refl
holds-behind user (x ∷ xs) a = rw (equal-behind, holds-behind user xs a) refl

pub behind-IsDistinct :
    (user : Bytes) (xs : List Bytes) → IsDistinct xs → IsDistinct (map (λ x. user ++ x) xs)
behind-IsDistinct user [] h = h
behind-IsDistinct user (x ∷ xs) h = (rw holds-behind (h.0), behind-IsDistinct user xs h.1)

-- What stands behind the user.
pub holds-map :
    (user : Bytes) (xs : List Bytes) (m : Bytes)
    → holds (map (λ x. user ++ x) xs) m ≡ true
    → (x : Bytes) × (m ≡ user ++ x) × (holds xs x ≡ true)
holds-map user [] m h = absurd (ground (arith, not-holds-nil m))
holds-map user (x ∷ xs) m h = elim (holds_cases (user ++ x) (map (λ x. user ++ x) xs) m h) [
  | inl e ↦ (x, e, ground (arith, holds-cons x xs x, equal_refl x))
  | inr later ↦
      let (y, e, old) = holds-map user xs m later in (y, e, ground (arith, holds-cons x xs y))
]
