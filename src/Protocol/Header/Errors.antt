-- ===== src/Protocol/Header/Errors.antt =====
-- The texts of the errors of parseClipboardHeader in internal/protocol/server.go.
use slush.Base.Int.{ℤ, pos, negsuc}
use slush.Base.{
  Bool, true, false, Option, none, some, List, [], ◌≡◌, refl, inl, inr, Result, ok, err, leb,
  get_or, Bool-cases, ◌>>=◌, refuse_if, subst, not, ltb, length,
}
use slush.Protocol.Header.{
  clipboard_magic, max_clipboard_payload, has_clipboard_header_shape, clipboard_verb_has_payload,
  checked_length, clipboard_header_payload_length, known_verbs, request_of_fields,
  parse_clipboard_header,
}
use slush.Text.Decimal.{atoi}
use slush.Text.Fields.{fields}
use slush.Text.{Bytes, equal, has_byte, one_of}

-- An error that is a text of one line.
abbrev IsLine : {A : Type 0} → Result Bytes A → Type 0
IsLine (ok a) = Unit {0}
IsLine (err text) = has_byte text b'\n' ≡ false

checked_length-IsLine : (n : Option ℤ) → IsLine (checked_length n)
checked_length-IsLine none = refl
checked_length-IsLine (some (negsuc n)) = refl
checked_length-IsLine (some (pos n)) = elim (Bool-cases (leb n max_clipboard_payload)) [
  | inl e ↦ rw e tt
  | inr e ↦ rw e refl
]

payload_length-IsLine :
    (verb : Bytes) (fs : List Bytes) → IsLine (clipboard_header_payload_length verb fs)
unfolding clipboard_header_payload_length
payload_length-IsLine verb fs =
    let want = clipboard_verb_has_payload verb in
    elim (Bool-cases (has_clipboard_header_shape fs want)) [
      | inr e ↦ rw e refl
      | inl e ↦ elim (Bool-cases want) [
        | inl e' ↦ rw (e, e') (checked_length-IsLine (atoi (get_or fs 3 [])))
        | inr e' ↦ rw (e, e') tt
      ]
    ]

module _ {A B : Type 0} where
  bind-IsLine :
      (r : Result Bytes A) (k : A → Result Bytes B)
      → IsLine r
      → ((a : A) → IsLine (k a))
      → IsLine (r >>= k)
  bind-IsLine (ok a) k h next = next a
  bind-IsLine (err text) k h next = h

refuse_if-IsLine :
    (refused : Bool) (text : Bytes) → has_byte text b'\n' ≡ false → IsLine (refuse_if refused text)
refuse_if-IsLine true text h = h
refuse_if-IsLine false text h = tt

request_of_fields-IsLine : (fs : List Bytes) → IsLine (request_of_fields fs)
unfolding request_of_fields
request_of_fields-IsLine fs =
    let verb = get_or fs 2 [] in
    bind-IsLine _ _ (refuse_if-IsLine (ltb (length fs) 3) _ refl) (λ _.
      bind-IsLine _ _ (refuse_if-IsLine (not (equal (get_or fs 0 []) clipboard_magic)) _ refl) (λ _.
        bind-IsLine _ _ (payload_length-IsLine verb fs) (λ payload.
          bind-IsLine _ _ (refuse_if-IsLine (not (one_of known_verbs verb)) _ refl) (λ _. tt))))

pub parse_clipboard_header-IsLine :
    (line : Bytes) {text : Bytes}
    → parse_clipboard_header line ≡ err text
    → has_byte text b'\n' ≡ false
unfolding parse_clipboard_header
parse_clipboard_header-IsLine line h = subst IsLine h (request_of_fields-IsLine (fields line))
