-- ===== src/Validate/Redact.antt =====
-- `redactToken` of internal/validate/validate.go, on a token and an output.
use slush.Base.{
  ℕ, zero, suc, ◌-◌, ◌<◌, ◌≤◌, true, false, ◌||◌, [], ◌∷◌, ◌++◌, ◌≡◌, ◌≢◌, inl, inr, refl, arith,
  length, Bool-cases, ok, ok-injective, subst, cons-ne-nil,
}
use slush.Protocol.Token.{generate_token, encode_hex, length-encode_hex}
use slush.Text.{Bytes, codes, has_byte, has_prefix, contains, replace_from}
use slush.Validate.{redact_token}

has_prefix_kept :
    (s t p : Bytes)
    → has_byte p b'<' ≡ false
    → has_prefix (replace_from s t (codes "<token>") 0) p ≡ true
    → has_prefix s p ≡ true
unfolding has_prefix replace_from
has_prefix_kept s t [] clear h = refl
has_prefix_kept [] t (d ∷ p) clear h = ground arith
has_prefix_kept (c ∷ s) t (d ∷ p) clear h = elim (Bool-cases (has_prefix (c ∷ s) t)) [
  | inl replaced ↦ let h' = rw (replaced, replace_from) at h in absurd (ground arith)
  | inr kept ↦ let h' = rw (kept, replace_from) at h in ground (arith, has_prefix_kept s t p)
]

has_prefix-nil : (s : Bytes) → has_prefix s [] ≡ true
unfolding has_prefix
has_prefix-nil s = refl

nil_lacks : (t : Bytes) → t ≢ [] → contains [] t ≡ false
unfolding contains has_prefix
nil_lacks [] filled = absurd (filled refl)
nil_lacks (d ∷ t) filled = refl

-- A text without `>` that begins what stands before a `>` begins it without that.
has_prefix_before :
    (w s t : Bytes)
    → has_byte t b'>' ≡ false
    → has_prefix (w ++ b'>' ∷ s) t ≡ true
    → has_prefix w t ≡ true
unfolding has_prefix
has_prefix_before w s [] clear h = ground (arith, has_prefix-nil w)
has_prefix_before [] s (d ∷ t) clear h = absurd (ground arith)
has_prefix_before (c ∷ w) s (d ∷ t) clear h = ground (arith, has_prefix_before w s t)

contains_before :
    (w s t : Bytes)
    → has_byte t b'>' ≡ false
    → t ≢ []
    → contains w t ≡ false
    → contains s t ≡ false
    → contains (w ++ b'>' ∷ s) t ≡ false
unfolding contains
contains_before [] s t clear filled h rest = ground (arith, rest, has_prefix_before [] s t clear)
contains_before (c ∷ w) s t clear filled h rest =
    ground (arith, has_prefix_before (c ∷ w) s t clear, contains_before w s t clear filled)

abbrev redacted : Bytes → Bytes → Bytes
redacted s t = replace_from s t (codes "<token>") 0

redacted-kept :
    (c : ℕ) (s t : Bytes) → has_prefix (c ∷ s) t ≡ false → redacted (c ∷ s) t ≡ c ∷ redacted s t
unfolding replace_from
redacted-kept c s t kept = rw (kept, replace_from) refl

redacted-replaced :
    (c : ℕ) (s t : Bytes)
    → has_prefix (c ∷ s) t ≡ true
    → redacted (c ∷ s) t
      ≡ codes "<token" ++ b'>' ∷ replace_from s t (codes "<token>") (length t - 1)
unfolding replace_from
redacted-replaced c s t replaced = rw (replaced, replace_from) refl

replace_from_skipped :
    (c : ℕ) (s old new : Bytes) (skip : ℕ)
    → replace_from (c ∷ s) old new (suc skip) ≡ replace_from s old new skip
unfolding replace_from
replace_from_skipped c s old new skip = refl

contains-cons : (c : ℕ) (s t : Bytes) → contains (c ∷ s) t ≡ (has_prefix (c ∷ s) t || contains s t)
unfolding contains
contains-cons c s t = refl

-- What a replacement may be: without the brackets around "token", and no part of that.
record IsRedactable (t : Bytes) : Type 0 where
  no_left : has_byte t b'<' ≡ false
  no_right : has_byte t b'>' ≡ false
  filled : t ≢ []
  not_word : contains (codes "<token") t ≡ false

contains-replace_from :
    (s t : Bytes) (skip : ℕ)
    → IsRedactable t
    → contains (replace_from s t (codes "<token>") skip) t ≡ false
contains-replace_from [] t skip h = unfold replace_from in nil_lacks t h.filled
contains-replace_from (c ∷ s) t (suc skip) h =
    rw replace_from_skipped (contains-replace_from s t skip h)
contains-replace_from (c ∷ s) t zero h = elim (Bool-cases (has_prefix (c ∷ s) t)) [
  | inl replaced ↦ rw (redacted-replaced c s t replaced) (
      contains_before (codes "<token") (replace_from s t (codes "<token>") (length t - 1)) t
        h.no_right h.filled h.not_word (contains-replace_from s t (length t - 1) h))
  | inr kept ↦
      let e = redacted-kept c s t kept in
      let begins = has_prefix_kept (c ∷ s) t t h.no_left in
      let rest = contains-replace_from s t 0 h in
      let unbegun : has_prefix (c ∷ redacted s t) t ≡ false =
        elim (Bool-cases (has_prefix (c ∷ redacted s t) t)) [
          | inr none_here ↦ none_here
          | inl begun ↦ let again = begins (rw e begun) in absurd (ground (arith, again, kept))
        ] in
      rw (e, contains-cons, unbegun, rest) refl
]

encode_hex-lacks :
    (raw : Bytes)
    → (has_byte (encode_hex raw) b'<' ≡ false) × (has_byte (encode_hex raw) b'>' ≡ false)
unfolding encode_hex
encode_hex-lacks [] = (refl, refl)
encode_hex-lacks (c ∷ raw) =
    let rest = encode_hex-lacks raw in (ground (arith, rest.0), ground (arith, rest.1))

has_prefix-length : (s t : Bytes) → has_prefix s t ≡ true → length t ≤ length s
unfolding has_prefix
has_prefix-length s [] h = omega arith
has_prefix-length [] (d ∷ t) h = absurd (ground arith)
has_prefix-length (c ∷ s) (d ∷ t) h = ground (arith, has_prefix-length s t)

-- A text is no part of a shorter one.
contains_longer : (s t : Bytes) → length s < length t → contains s t ≡ false
unfolding contains
contains_longer [] t h = ground (arith, has_prefix-length [] t)
contains_longer (c ∷ s) t h = ground (arith, has_prefix-length (c ∷ s) t, contains_longer s t)

length_filled : (t : Bytes) → 0 < length t → t ≢ []
length_filled [] h = absurd (omega (arith, h))
length_filled (c ∷ t) h = cons-ne-nil c t

generate_token-IsRedactable :
    (raw : Bytes) {token : Bytes}
    → length raw ≡ 16
    → generate_token (ok raw) ≡ ok token
    → IsRedactable token
unfolding generate_token
generate_token-IsRedactable raw {token} h made =
    let e : encode_hex raw ≡ token = ok-injective made in
    let long : length (encode_hex raw) ≡ 32 = omega (arith, length-encode_hex raw) in
    subst IsRedactable e (record {
      no_left = (encode_hex-lacks raw).0;
      no_right = (encode_hex-lacks raw).1;
      filled = length_filled (encode_hex raw) (omega (arith, long));
      not_word = contains_longer (codes "<token") (encode_hex raw) (omega (arith, long));
    })

redact_token_filled : (out t : Bytes) → t ≢ [] → redact_token out t ≡ redacted out t
unfolding redact_token
redact_token_filled out [] h = absurd (h refl)
redact_token_filled out (c ∷ t) h = refl

-- A token that was made of 16 random bytes is nowhere in an output from which it was redacted.
pub redact_token-generate_token :
    (raw out : Bytes) {token : Bytes}
    → length raw ≡ 16
    → generate_token (ok raw) ≡ ok token
    → contains (redact_token out token) token ≡ false
redact_token-generate_token raw out {token} h made =
    let t = generate_token-IsRedactable raw h made in
    rw (redact_token_filled out token t.filled) (contains-replace_from out token 0 t)
