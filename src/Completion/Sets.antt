-- ===== src/Completion/Sets.antt =====
-- Loops over lists, and the sets that they fill.
use mathlib.Core.List.{Memᴰ}
use mathlib.Core.List.Memᴰ
use slush.Base.{true, false, ◌||◌, List, [], ◌∷◌, ◌≡◌, ◌⊎◌, inl, inr, refl, sym, subst, arith}
use slush.Completion.Reading.{each, holds, is_unusable, add_ssh_host}
use slush.Text.Compare.{equal_iff, equal_refl}
use slush.Text.{Bytes, equal}

module _ {ℓ κ ι} {A : Type ℓ} {S : Type κ} (P : S → Type ι) (body : A → S → S) where
  -- What each round keeps, the loop keeps.
  pub each_keeps :
      (xs : List A) (s : S)
      → ((x : A) → Memᴰ x xs → (t : S) → P t → P (body x t))
      → P s
      → P (each body xs s)
  unfolding each
  each_keeps [] s keeps h = h
  each_keeps (x ∷ xs) s keeps h =
      each_keeps xs (body x s) (λ y i. keeps y (Memᴰ.tail i)) (keeps x (Memᴰ.head refl) s h)

  -- What one round makes and all keep, the loop makes.
  pub each_makes :
      (a : A) (xs : List A) (s : S)
      → Memᴰ a xs
      → ((t : S) → P (body a t))
      → ((x : A) (t : S) → P t → P (body x t))
      → P (each body xs s)
  unfolding each
  each_makes a [] s i makes keeps = absurd (Memᴰ.not-nil i)
  each_makes a (x ∷ xs) s (Memᴰ.head e) makes keeps =
      each_keeps xs (body x s) (λ y i. keeps y) (subst (λ y. P (body y s)) e (makes s))
  each_makes a (x ∷ xs) s (Memᴰ.tail i) makes keeps = each_makes a xs (body x s) i makes keeps

-- No element twice.
abbrev pub IsDistinct : List Bytes → Type 0
IsDistinct [] = Unit
IsDistinct (x ∷ xs) = (holds xs x ≡ false) × IsDistinct xs

pub holds-cons :
    (x : Bytes) (xs : List Bytes) (a : Bytes) → holds (x ∷ xs) a ≡ (equal a x || holds xs a)
unfolding holds
holds-cons x xs a = refl

pub holds_cases :
    (x : Bytes) (xs : List Bytes) (a : Bytes)
    → holds (x ∷ xs) a ≡ true
    → (a ≡ x) ⊎ (holds xs a ≡ true)
holds_cases x xs a h = ground (arith, holds-cons x xs a, equal_iff a x)

pub not-holds-nil : (a : Bytes) → holds [] a ≡ false
unfolding holds
not-holds-nil a = refl

pub holds-head : (x : Bytes) (xs : List Bytes) → holds (x ∷ xs) x ≡ true
holds-head x xs = ground (arith, holds-cons x xs x, equal_refl x)

pub holds-tail :
    (x : Bytes) (xs : List Bytes) (a : Bytes) → holds xs a ≡ true → holds (x ∷ xs) a ≡ true
holds-tail x xs a h = ground (arith, holds-cons x xs a)

-- Adding a host.
pub add_ssh_host_new :
    (host : Bytes) (hosts : List Bytes)
    → is_unusable host ≡ false
    → holds (add_ssh_host host hosts) host ≡ true
unfolding add_ssh_host
add_ssh_host_new host hosts good = ground (arith, good, holds-head host hosts)

pub add_ssh_host_old :
    (host : Bytes) (hosts : List Bytes) (a : Bytes)
    → holds hosts a ≡ true
    → holds (add_ssh_host host hosts) a ≡ true
unfolding add_ssh_host
add_ssh_host_old host hosts a h = ground (arith, holds-tail host hosts a)

pub add_ssh_host_cases :
    (host : Bytes) (hosts : List Bytes) (a : Bytes)
    → holds (add_ssh_host host hosts) a ≡ true
    → (holds hosts a ≡ true) ⊎ ((a ≡ host) × (is_unusable host ≡ false))
unfolding add_ssh_host
add_ssh_host_cases host hosts a h = ground (arith, h, holds_cases host hosts a)

pub add_ssh_host-IsDistinct :
    (host : Bytes) (hosts : List Bytes) → IsDistinct hosts → IsDistinct (add_ssh_host host hosts)
unfolding add_ssh_host
add_ssh_host-IsDistinct host hosts h = ground arith

-- All of the set have the property.
module _ (Q : Bytes → Type 0) where
  abbrev pub AllIn : List Bytes → Type 0
  AllIn hosts = (host : Bytes) → holds hosts host ≡ true → Q host

  pub add_ssh_host-AllIn :
      (host : Bytes) (hosts : List Bytes)
      → (is_unusable host ≡ false → Q host)
      → AllIn hosts
      → AllIn (add_ssh_host host hosts)
  add_ssh_host-AllIn host hosts new old a h = elim (add_ssh_host_cases host hosts a h) [
    | inl already ↦ old a already
    | inr (e, good) ↦ subst Q (sym e) (new good)
  ]
