-- ===== src/Values/Forward/Pieces.antt =====
-- What the fields of an accepted forward are: pieces of its text, with or without brackets.
use slush.Base.{
  subst, Bool-cases, ok-injective, ℕ, Bool, true, false, List, [], ◌∷◌, ◌++◌, ◌≡◌, refl, ◌⊎◌, inl,
  inr, arith, ◌==◌, ==_iff, append_assoc, All, All-append, ok, any-append,
}
use slush.Text.{Bytes}
use slush.Values.Forward.{is_empty, forward_fields_from, forward_fields}
use slush.Values.Forward.Fields.{NoBrackets}

-- What the loop knows of the current field: it has no bracket, or it is a text in brackets with a
-- rest behind them, or the text behind an open bracket.
pub data IsPiece : Bytes → Type 0 where
  unmarked : {t : Bytes} → NoBrackets t → IsPiece t
  marked :
      {t : Bytes} (x y : Bytes)
      → NoBrackets x
      → NoBrackets y
      → t ≡ b'[' ∷ (x ++ b']' ∷ y)
      → IsPiece t

abbrev Current : Bool → Bytes → Type 0
Current true cur = (x : Bytes) × NoBrackets x × (cur ≡ b'[' ∷ x)
Current false cur = IsPiece cur

NoBrackets-concat :
    (x : Bytes) (c : ℕ)
    → (c == b'[') ≡ false
    → (c == b']') ≡ false
    → NoBrackets x
    → NoBrackets (x ++ c ∷ [])
NoBrackets-concat x c h k n = (
  rw (any-append {0} (λ d. d == b'[') x (c ∷ []), n.0, h) refl,
  rw (any-append {0} (λ d. d == b']') x (c ∷ []), n.1, k) refl,
)

IsPiece-concat :
    {cur : Bytes} (c : ℕ)
    → (c == b'[') ≡ false
    → (c == b']') ≡ false
    → IsPiece cur
    → IsPiece (cur ++ c ∷ [])
IsPiece-concat {cur} c h k (unmarked n) = unmarked (NoBrackets-concat cur c h k n)
IsPiece-concat c h k (marked x y nx ny e) =
    marked x (y ++ c ∷ []) nx (NoBrackets-concat y c h k ny) (rw (e, append_assoc))

Current-concat :
    (b : Bool) (cur : Bytes) (c : ℕ)
    → (c == b'[') ≡ false
    → (c == b']') ≡ false
    → Current b cur
    → Current b (cur ++ c ∷ [])
Current-concat true cur c h k (x, n, e) = (x ++ c ∷ [], NoBrackets-concat x c h k n, rw e)
Current-concat false cur c h k piece = IsPiece-concat c h k piece

Current-close : (cur : Bytes) → Current true cur → IsPiece (cur ++ b']' ∷ [])
Current-close cur (x, n, e) = marked x [] n (refl, refl) (rw e)

Current-open : (cur : Bytes) → is_empty cur ≡ true → Current true (cur ++ b'[' ∷ [])
Current-open [] h = ([], (refl, refl), refl)
Current-open (c ∷ cur) h = cc

module _ (value : Bytes) (s : Bytes) (fields : List Bytes) (cur : Bytes) {fs : List Bytes} where
  step_open :
      (b : Bool)
      → forward_fields_from value (b'[' ∷ s) fields cur b ≡ ok fs
      → (is_empty cur ≡ true) × (forward_fields_from value s fields (cur ++ b'[' ∷ []) true ≡ ok fs)
  unfolding forward_fields_from
  step_open true h = cc
  step_open false h = ground arith

  step_close :
      (b : Bool)
      → forward_fields_from value (b']' ∷ s) fields cur b ≡ ok fs
      → (b ≡ true) × (forward_fields_from value s fields (cur ++ b']' ∷ []) false ≡ ok fs)
  unfolding forward_fields_from
  step_close true h = ground arith
  step_close false h = cc

  -- A colon outside brackets ends the field; any other character is added to it.
  step_other :
      (c : ℕ) (b : Bool)
      → (c == b'[') ≡ false
      → (c == b']') ≡ false
      → forward_fields_from value (c ∷ s) fields cur b ≡ ok fs
      → ((b ≡ false) × (forward_fields_from value s (fields ++ cur ∷ []) [] false ≡ ok fs))
        ⊎ (forward_fields_from value s fields (cur ++ c ∷ []) b ≡ ok fs)
  unfolding forward_fields_from
  step_other c true h k e = inr (ground arith)
  step_other c false h k e = ground arith

step_end :
    (value : Bytes) (fields : List Bytes) (cur : Bytes) {fs : List Bytes}
    → forward_fields_from value [] fields cur false ≡ ok fs
    → fields ++ cur ∷ [] ≡ fs
unfolding forward_fields_from
step_end value fields cur h = ok-injective h

forward_fields_from_sound :
    (s value : Bytes) (fields : List Bytes) (cur : Bytes) (b : Bool) {fs : List Bytes}
    → All IsPiece fields
    → Current b cur
    → forward_fields_from value s fields cur b ≡ ok fs
    → All IsPiece fs
forward_fields_from_sound [] value fields cur true done current h = unfold forward_fields_from in cc
forward_fields_from_sound [] value fields cur false {fs} done current h =
    subst (All IsPiece) (step_end value fields cur h)
      (All-append IsPiece fields (cur ∷ []) done (current, tt))
forward_fields_from_sound (c ∷ s) value fields cur b {fs} done current h =
    elim (Bool-cases (c == b'[')) [
      | inl opens ↦
          let (empty, later) = step_open value s fields cur b (rw ((==_iff c b'[').0 opens) at h) in
          forward_fields_from_sound s value fields (cur ++ b'[' ∷ []) true done
            (Current-open cur empty) later
      | inr not_open ↦ elim (Bool-cases (c == b']')) [
        | inl closes ↦
            let (inside, later) =
              step_close value s fields cur b (rw ((==_iff c b']').0 closes) at h) in
            forward_fields_from_sound s value fields (cur ++ b']' ∷ []) false done
              (Current-close cur (subst (λ x. Current x cur) inside current)) later
        | inr not_close ↦ elim (step_other value s fields cur c b not_open not_close h) [
          | inl (outside, later) ↦
              forward_fields_from_sound s value (fields ++ cur ∷ []) [] false
                (All-append IsPiece fields (cur ∷ []) done
                  (subst (λ x. Current x cur) outside current, tt))
                (unmarked (refl, refl)) later
          | inr later ↦
              forward_fields_from_sound s value fields (cur ++ c ∷ []) b done
                (Current-concat b cur c not_open not_close current) later
        ]
      ]
    ]

-- Every field of an accepted text is such a piece.
pub forward_fields_sound :
    (value : Bytes) {fs : List Bytes} → forward_fields value ≡ ok fs → All IsPiece fs
unfolding forward_fields
forward_fields_sound value h =
    forward_fields_from_sound value value [] [] false tt (unmarked (refl, refl)) h
