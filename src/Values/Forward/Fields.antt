-- ===== src/Values/Forward/Fields.antt =====
-- How the loop of `forwardFields` cuts a forward into fields.
use slush.Base.{
  true, false, List, [], ◌∷◌, ◌++◌, ◌≡◌, refl, sym, ap, ◌∙◌, arith, append-nil, append_assoc, ok,
}
use slush.Text.{Bytes, has_byte}
use slush.Values.Forward.{forward_fields_from, forward_fields}

abbrev pub NoBrackets : Bytes → Type 0
NoBrackets s = (has_byte s b'[' ≡ false) × (has_byte s b']' ≡ false)

abbrev pub bracketed : Bytes → Bytes
bracketed x = b'[' ∷ (x ++ b']' ∷ [])

-- A text with no bracket and no colon, or one with no bracket in brackets.
pub data IsField : Bytes → Type 0 where
  plain : {t : Bytes} → NoBrackets t → has_byte t b':' ≡ false → IsField t
  in_brackets : {t : Bytes} (x : Bytes) → NoBrackets x → t ≡ bracketed x → IsField t

forward_fields_from-plain :
    (t value s : Bytes) (fields : List Bytes) (cur : Bytes)
    → NoBrackets t
    → has_byte t b':' ≡ false
    → forward_fields_from value (t ++ s) fields cur false
      ≡ forward_fields_from value s fields (cur ++ t) false
unfolding forward_fields_from
forward_fields_from-plain [] value s fields cur h k =
    ap (λ c. forward_fields_from value s fields c false) (sym (append-nil cur))
forward_fields_from-plain (c ∷ t) value s fields cur h k =
    ground (
      arith,
      forward_fields_from-plain t value s fields (cur ++ c ∷ []),
      append_assoc cur (c ∷ []) t,
    )

forward_fields_from-inner :
    (x value s : Bytes) (fields : List Bytes) (cur : Bytes)
    → NoBrackets x
    → forward_fields_from value (x ++ s) fields cur true
      ≡ forward_fields_from value s fields (cur ++ x) true
unfolding forward_fields_from
forward_fields_from-inner [] value s fields cur h =
    ap (λ c. forward_fields_from value s fields c true) (sym (append-nil cur))
forward_fields_from-inner (c ∷ x) value s fields cur h =
    ground (
      arith,
      forward_fields_from-inner x value s fields (cur ++ c ∷ []),
      append_assoc cur (c ∷ []) x,
    )

forward_fields_from_close :
    (value s : Bytes) (fields : List Bytes) (cur : Bytes)
    → forward_fields_from value (b']' ∷ s) fields cur true
      ≡ forward_fields_from value s fields (cur ++ b']' ∷ []) false
unfolding forward_fields_from
forward_fields_from_close value s fields cur = refl

forward_fields_from_open :
    (value s : Bytes) (fields : List Bytes)
    → forward_fields_from value (b'[' ∷ s) fields [] false
      ≡ forward_fields_from value s fields (b'[' ∷ []) true
unfolding forward_fields_from
forward_fields_from_open value s fields = refl

forward_fields_from_colon :
    (value s : Bytes) (fields : List Bytes) (cur : Bytes)
    → forward_fields_from value (b':' ∷ s) fields cur false
      ≡ forward_fields_from value s (fields ++ cur ∷ []) [] false
unfolding forward_fields_from
forward_fields_from_colon value s fields cur = refl

-- A field is taken over whole.
forward_fields_from-IsField :
    {t : Bytes} (value s : Bytes) (fields : List Bytes)
    → IsField t
    → forward_fields_from value (t ++ s) fields [] false
      ≡ forward_fields_from value s fields t false
forward_fields_from-IsField {t} value s fields (plain h k) =
    forward_fields_from-plain t value s fields [] h k
forward_fields_from-IsField {t} value s fields (in_brackets x h e) =
    rw (e, append_assoc)
      (forward_fields_from_open value (x ++ b']' ∷ s) fields
        ∙ forward_fields_from-inner x value (b']' ∷ s) fields (b'[' ∷ []) h
        ∙ forward_fields_from_close value s fields (b'[' ∷ x))

forward_fields_from_field :
    {t : Bytes} (value s : Bytes) (fields : List Bytes)
    → IsField t
    → forward_fields_from value (t ++ b':' ∷ s) fields [] false
      ≡ forward_fields_from value s (fields ++ t ∷ []) [] false
forward_fields_from_field {t} value s fields h =
    forward_fields_from-IsField value (b':' ∷ s) fields h
    ∙ forward_fields_from_colon value s fields t

forward_fields_from_last :
    {t : Bytes} (value : Bytes) (fields : List Bytes)
    → IsField t
    → forward_fields_from value t fields [] false ≡ ok (fields ++ t ∷ [])
forward_fields_from_last {t} value fields h =
    ap (λ u. forward_fields_from value u fields [] false) (sym (append-nil t))
    ∙ forward_fields_from-IsField value [] fields h
    ∙ unfold forward_fields_from in refl

-- Four fields with colons between them are found again.
pub forward_fields_four :
    (a b c d : Bytes)
    → IsField a
    → IsField b
    → IsField c
    → IsField d
    → forward_fields (a ++ b':' ∷ (b ++ b':' ∷ (c ++ b':' ∷ d))) ≡ ok (a ∷ b ∷ c ∷ d ∷ [])
unfolding forward_fields
forward_fields_four a b c d ha hb hc hd =
    let value = a ++ b':' ∷ (b ++ b':' ∷ (c ++ b':' ∷ d)) in
    forward_fields_from_field value (b ++ b':' ∷ (c ++ b':' ∷ d)) [] ha
    ∙ forward_fields_from_field value (c ++ b':' ∷ d) (a ∷ []) hb
    ∙ forward_fields_from_field value d (a ∷ b ∷ []) hc
    ∙ forward_fields_from_last value (a ∷ b ∷ c ∷ []) hd
