-- ===== src/Clipboard/Urls.antt =====
-- `hasURLScheme` and `OpenURL` of internal/desktop/clipboard.go, against a description of URLs.
use slush.Base.{
  ℕ, ◌≤◌, ◌<◌, ◌⊎◌, All, Bool, true, false, ◌&&◌, some, List, [], ◌∷◌, ◌++◌, ◌≡◌, ◌≢◌, ◌↔◌, refl,
  cons-ne-nil, inl, inr, arith, Result, err, all, Option-cases,
}
use slush.Clipboard.{
  is_url_scheme_character, scheme_characters, has_url_scheme_parts, has_url_scheme,
}
use slush.Machine.{looked_up, ran, Machine}
use slush.Text.Compare.{cut_prefix-eq_some}
use slush.Text.{Bytes, codes, cut, cut_prefix, has_byte}

-- A letter, a digit, or one of + - .
abbrev pub IsSchemeByte : ℕ → Type 0
IsSchemeByte c =
    ((97 ≤ c) × (c ≤ 122))
    ⊎ (((65 ≤ c) × (c ≤ 90)) ⊎ (((48 ≤ c) × (c ≤ 57)) ⊎ ((c ≡ 43) ⊎ ((c ≡ 45) ⊎ (c ≡ 46)))))

abbrev pub BeginsWithNoDigit : Bytes → Type 0
BeginsWithNoDigit [] = Unit {0}
BeginsWithNoDigit (c ∷ s) = (c < 48) ⊎ (57 < c)

-- A scheme, `://` and something behind it.
pub record IsUrl (target : Bytes) : Type 0 where
  pub scheme : Bytes
  pub rest : Bytes
  pub parts : target ≡ scheme ++ (b':' ∷ b'/' ∷ b'/' ∷ rest)
  pub has_rest : rest ≢ []
  pub has_scheme : scheme ≢ []
  pub characters : All IsSchemeByte scheme
  pub no_digit : BeginsWithNoDigit scheme

is_url_scheme_character_lem :
    (c : ℕ)
    → (is_url_scheme_character c ≡ true → IsSchemeByte c)
      × (IsSchemeByte c → is_url_scheme_character c ≡ true)
unfolding is_url_scheme_character
is_url_scheme_character_lem c = (λ h. ground arith, λ h. ground arith)

all_sound : (s : Bytes) → all is_url_scheme_character s ≡ true → All IsSchemeByte s
all_sound [] h = tt
all_sound (c ∷ s) h = ((is_url_scheme_character_lem c).0 (ground arith), all_sound s (ground arith))

all_complete : (s : Bytes) → All IsSchemeByte s → all is_url_scheme_character s ≡ true
all_complete [] h = refl
all_complete (c ∷ s) h =
    let first = (is_url_scheme_character_lem c).1 h.0 in
    let rest = all_complete s h.1 in ground arith

scheme_characters_lem :
    (s : Bytes) → scheme_characters s ≡ true → All IsSchemeByte s × BeginsWithNoDigit s
scheme_characters_lem [] h = (tt, tt)
scheme_characters_lem (c ∷ s) h = (all_sound (c ∷ s) (ground arith), ground arith)

scheme_characters_complete :
    (s : Bytes) → All IsSchemeByte s → BeginsWithNoDigit s → scheme_characters s ≡ true
scheme_characters_complete [] h h' = refl
scheme_characters_complete (c ∷ s) h h' = let every = all_complete (c ∷ s) h in ground arith

cut_sound :
    (s before behind : Bytes)
    → cut s (codes "://") ≡ some (before, behind)
    → s ≡ before ++ (b':' ∷ b'/' ∷ b'/' ∷ behind)
unfolding cut
cut_sound [] before behind h = cc
cut_sound (c ∷ s) before behind h = elim (Option-cases (cut_prefix (c ∷ s) (codes "://"))) [
  | inr (rest, here) ↦
      let found = cut_prefix-eq_some (c ∷ s) (codes "://") here in
      let e = rw (here, cut) at h in ground (arith, found, e)
  | inl elsewhere ↦ elim (Option-cases (cut s (codes "://"))) [
    | inl nowhere ↦ let e = rw (elsewhere, cut, nowhere) at h in cc
    | inr ((b, a), later) ↦
        let ih = cut_sound s b a later in
        let e = rw (elsewhere, cut, later) at h in ground (arith, ih, e)
  ]
]

cut_at :
    (before behind : Bytes)
    → has_byte before b':' ≡ false
    → cut (before ++ (b':' ∷ b'/' ∷ b'/' ∷ behind)) (codes "://") ≡ some (before, behind)
unfolding cut cut_prefix
cut_at [] behind h = refl
cut_at (c ∷ before) behind h = ground (arith, cut_at before behind)

characters-lacks : (s : Bytes) → all is_url_scheme_character s ≡ true → has_byte s b':' ≡ false
unfolding is_url_scheme_character
characters-lacks [] h = refl
characters-lacks (c ∷ s) h = ground (arith, characters-lacks s)

scheme_characters-lacks : (s : Bytes) → scheme_characters s ≡ true → has_byte s b':' ≡ false
scheme_characters-lacks [] h = refl
scheme_characters-lacks (c ∷ s) h = characters-lacks (c ∷ s) (ground arith)

parts_given :
    (scheme rest : Bytes) → has_url_scheme_parts scheme rest ≡ true → (scheme ≢ []) × (rest ≢ [])
parts_given [] rest h = cc
parts_given (c ∷ scheme) [] h = cc
parts_given (c ∷ scheme) (r ∷ rest) h = (cons-ne-nil c scheme, cons-ne-nil r rest)

parts_hold :
    (scheme rest : Bytes) → scheme ≢ [] → rest ≢ [] → has_url_scheme_parts scheme rest ≡ true
parts_hold [] rest h h' = absurd (h refl)
parts_hold (c ∷ scheme) [] h h' = absurd (h' refl)
parts_hold (c ∷ scheme) (r ∷ rest) h h' = refl

has_url_scheme-IsUrl : (target : Bytes) → has_url_scheme target ≡ true → IsUrl target
unfolding has_url_scheme
has_url_scheme-IsUrl target h = elim (Option-cases (cut target (codes "://"))) [
  | inl nowhere ↦ let e = rw (nowhere, has_url_scheme) at h in cc
  | inr ((scheme, rest), found) ↦
      let e = rw (found, has_url_scheme) at h in
      let (given, characters) = both _ _ e in
      let (has_scheme, has_rest) = parts_given scheme rest given in
      record {
        scheme = scheme;
        rest = rest;
        parts = cut_sound target scheme rest found;
        has_rest = has_rest;
        has_scheme = has_scheme;
        characters = (scheme_characters_lem scheme characters).0;
        no_digit = (scheme_characters_lem scheme characters).1;
      }
]
  where
    both : (a b : Bool) → (a && b) ≡ true → (a ≡ true) × (b ≡ true)
    both a b h = (ground arith, ground arith)

IsUrl-has_url_scheme : (target : Bytes) → IsUrl target → has_url_scheme target ≡ true
unfolding has_url_scheme
IsUrl-has_url_scheme target u =
    let characters = scheme_characters_complete u.scheme u.characters u.no_digit in
    rw
      (
        u.parts,
        has_url_scheme,
        cut_at u.scheme u.rest (scheme_characters-lacks u.scheme characters),
        parts_hold u.scheme u.rest u.has_scheme u.has_rest,
      )
      characters

-- A text has a URL scheme exactly when it is a scheme, the characters :// and something behind
-- them, where the scheme is not empty, begins with no digit, and has ASCII letters, digits, +, -
-- and . only.
pub has_url_scheme_iff : (target : Bytes) → (has_url_scheme target ≡ true) ↔ IsUrl target
has_url_scheme_iff target = (has_url_scheme-IsUrl target, IsUrl-has_url_scheme target)

-- A tool was looked for, and the error is that there is none; or a tool was found and has run with the
-- text as its last argument.
abbrev pub OpensWith : Bytes → Machine → Machine × Result Bytes (Unit {0}) → Type 0
OpensWith text m (m', result) =
    (name : Bytes) × (((e : Bytes) × (m'.log ≡ looked_up name ∷ m.log) × (result ≡ err e))
      ⊎ ((path : Bytes) × (args : List Bytes) × (m'.log
            ≡ ran path (args ++ text ∷ []) [] ∷ looked_up name ∷ m.log)))

-- Nothing has happened but an error.
abbrev pub IsRefused : Machine → Machine × Result Bytes (Unit {0}) → Type 0
IsRefused m (m', result) = (m' ≡ m) × ((e : Bytes) × (result ≡ err e))
