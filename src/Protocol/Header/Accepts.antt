-- ===== src/Protocol/Header/Accepts.antt =====
-- Which request lines the server accepts.
use slush.Base.{
  ℕ, ◌≤◌, true, false, Option, none, some, List, [], ◌∷◌, ◌≡◌, ◌↔◌, ◌⊎◌, inl, inr, refl, arith, ok,
  le→leb,
}
use slush.Base.Int.{ℤ, pos, negsuc}
use slush.Protocol.Header.{
  Request, clipboard_magic, max_clipboard_payload, clipboard_verb_has_payload, checked_length,
  clipboard_header_payload_length, known_verbs, request_of_fields, parse_clipboard_header,
}
use slush.Text.Compare.{equal_iff, equal_refl}
use slush.Text.Decimal.{atoi}
use slush.Text.Fields.{fields}
use slush.Text.{Bytes, codes, equal, one_of}

-- The verb comes with a payload, whose length is the fourth field.
abbrev pub IsPayloadRequest : List Bytes → Request → Type 0
IsPayloadRequest fs r =
    ((r.verb ≡ codes "COPY") ⊎ (r.verb ≡ codes "OPEN"))
    × ((count : Bytes) × (fs ≡ clipboard_magic ∷ r.token ∷ r.verb ∷ count ∷ [])
        × (atoi count ≡ some (pos r.payload))
        × (r.payload ≤ max_clipboard_payload))

abbrev pub IsPlainRequest : List Bytes → Request → Type 0
IsPlainRequest fs r =
    ((r.verb ≡ codes "HELLO") ⊎ (r.verb ≡ codes "PASTE"))
    × (fs ≡ clipboard_magic ∷ r.token ∷ r.verb ∷ [])
    × (r.payload ≡ 0)

abbrev pub IsRequest : List Bytes → Request → Type 0
IsRequest fs r = IsPlainRequest fs r ⊎ IsPayloadRequest fs r

checked_length_sound :
    (o : Option ℤ) {n : ℕ}
    → checked_length o ≡ ok n
    → (o ≡ some (pos n)) × (n ≤ max_clipboard_payload)
checked_length_sound none h = cc
checked_length_sound (some (negsuc m)) h = cc
checked_length_sound (some (pos m)) h = ground arith

checked_length_complete : (n : ℕ) → n ≤ max_clipboard_payload → checked_length (some (pos n)) ≡ ok n
checked_length_complete n h = rw (le→leb _ _ h)

verb-payload :
    (v : Bytes) → clipboard_verb_has_payload v ≡ true → (v ≡ codes "COPY") ⊎ (v ≡ codes "OPEN")
unfolding clipboard_verb_has_payload one_of
verb-payload v h = ground (arith, equal_iff v (codes "COPY"), equal_iff v (codes "OPEN"))

verb-plain :
    (v : Bytes)
    → clipboard_verb_has_payload v ≡ false
    → one_of known_verbs v ≡ true
    → (v ≡ codes "HELLO") ⊎ (v ≡ codes "PASTE")
unfolding clipboard_verb_has_payload one_of
verb-plain v h k = ground (arith, equal_iff v (codes "HELLO"), equal_iff v (codes "PASTE"))

request_of_fields_sound :
    (fs : List Bytes) {r : Request} → request_of_fields fs ≡ ok r → IsRequest fs r
unfolding request_of_fields clipboard_header_payload_length
request_of_fields_sound [] h = ground arith
request_of_fields_sound (m ∷ []) h = ground arith
request_of_fields_sound (m ∷ t ∷ []) h = ground arith
request_of_fields_sound (m ∷ t ∷ v ∷ []) {r} h =
    inl (ground (arith, equal_iff m clipboard_magic, verb-plain v))
request_of_fields_sound (m ∷ t ∷ v ∷ c ∷ []) h = inr (
  ground (arith, verb-payload v),
  (
    c,
    ground (arith, equal_iff m clipboard_magic),
    ground (arith, checked_length_sound (atoi c)),
    ground (arith, checked_length_sound (atoi c)),
  ),
)
request_of_fields_sound (m ∷ t ∷ v ∷ c ∷ d ∷ fs) h = ground arith

payload-verb :
    (v : Bytes)
    → (v ≡ codes "COPY") ⊎ (v ≡ codes "OPEN")
    → (clipboard_verb_has_payload v ≡ true) × (one_of known_verbs v ≡ true)
unfolding clipboard_verb_has_payload one_of equal
payload-verb v (inl e) = rw e (refl, refl)
payload-verb v (inr e) = rw e (refl, refl)

plain-verb :
    (v : Bytes)
    → (v ≡ codes "HELLO") ⊎ (v ≡ codes "PASTE")
    → (clipboard_verb_has_payload v ≡ false) × (one_of known_verbs v ≡ true)
unfolding clipboard_verb_has_payload one_of equal
plain-verb v (inl e) = rw e (refl, refl)
plain-verb v (inr e) = rw e (refl, refl)

request_of_fields_complete :
    (fs : List Bytes) (r : Request) → IsRequest fs r → request_of_fields fs ≡ ok r
unfolding request_of_fields clipboard_header_payload_length
request_of_fields_complete fs r (inl (v, shape, none_sent)) =
    rw shape (ground (arith, plain-verb r.verb v, equal_refl clipboard_magic))
request_of_fields_complete fs r (inr (v, (count, shape, counts, fits))) = rw shape (
    ground (
      arith,
      payload-verb r.verb v,
      equal_refl clipboard_magic,
      counts,
      checked_length_complete r.payload fits,
    ))

-- A request line is accepted exactly when its fields are the magic word, the token, a known verb,
-- and, for COPY and OPEN only, a decimal length of at most 64 MiB.
pub parse_clipboard_header_iff :
    (line : Bytes) (r : Request) → (parse_clipboard_header line ≡ ok r) ↔ IsRequest (fields line) r
unfolding parse_clipboard_header
parse_clipboard_header_iff line r =
    (request_of_fields_sound (fields line), request_of_fields_complete (fields line) r)
