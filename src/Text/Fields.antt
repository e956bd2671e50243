-- ===== src/Text/Fields.antt =====
-- `strings.Fields`. White space is that of Unicode, whose characters take one, two or three bytes in
-- UTF-8; their first bytes begin no other character, so they are found without decoding the rest.
use slush.Base.{
  ◌∙◌, ℕ, zero, suc, ◌≤◌, Bool, ◌&&◌, ◌||◌, List, [], ◌∷◌, ◌++◌, ◌≡◌, ◌≢◌, refl, sym, ap, arith,
  ◌==◌, leb, if◌then◌else◌, All, append-nil, append_assoc,
}
use slush.Text.{Bytes}

-- U+0009 to U+000D and the blank.
abbrev pub ascii_space : ℕ → Bool
ascii_space c = c == b' ' || (leb 9 c && leb c 13)

-- U+0085 and U+00A0.
abbrev pub space_of_two : ℕ → ℕ → Bool
space_of_two c d = c == 0xc2 && (d == 0x85 || d == 0xa0)

-- U+1680, U+2000 to U+200A, U+2028, U+2029, U+202F, U+205F and U+3000.
abbrev pub space_of_three : ℕ → ℕ → ℕ → Bool
space_of_three c d e =
    c == 0xe1 && d == 0x9a && e == 0x80
    || c == 0xe2 && d == 0x80 && (leb 0x80 e && leb e 0x8a || e == 0xa8 || e == 0xa9 || e == 0xaf)
    || c == 0xe2 && d == 0x81 && e == 0x9f
    || c == 0xe3 && d == 0x80 && e == 0x80

wide_space : ℕ → Bytes → ℕ
wide_space c [] = 0
wide_space c (d ∷ []) = if space_of_two c d then 2 else 0
wide_space c (d ∷ e ∷ s) = if space_of_two c d then 2 else if space_of_three c d e then 3 else 0

-- The number of bytes of the white space character at the start of a text, or 0.
unfoldable pub space_width : Bytes → ℕ
unfolding wide_space
space_width [] = 0
space_width (c ∷ s) = if ascii_space c then 1 else wide_space c s

unfoldable pub flush : Bytes → List Bytes → List Bytes
flush [] rest = rest
flush (c ∷ cs) rest = (c ∷ cs) ∷ rest

-- The number counts the bytes of a white space character that are still to be passed over.
unfoldable pub fields_from : Bytes → ℕ → Bytes → List Bytes
fields_from [] skip cur = flush cur []
fields_from (c ∷ s) (suc skip) cur = fields_from s skip cur
fields_from (c ∷ s) zero cur = elim (space_width (c ∷ s)) [
  | zero ↦ fields_from s 0 (cur ++ c ∷ [])
  | suc w ↦ flush cur (fields_from s w [])
]

unfoldable pub fields : Bytes → List Bytes
unfolding fields_from
fields s = fields_from s 0 []

-- The visible ASCII characters.
abbrev pub IsVisible : ℕ → Type 0
IsVisible c = (33 ≤ c) × (c ≤ 126)

abbrev pub IsWord : Bytes → Type 0
IsWord w = All IsVisible w × (w ≢ [])

pub space_width-IsVisible : (c : ℕ) (s : Bytes) → IsVisible c → space_width (c ∷ s) ≡ 0
unfolding space_width
space_width-IsVisible c [] h = ground arith
space_width-IsVisible c (d ∷ []) h = ground arith
space_width-IsVisible c (d ∷ e ∷ s) h = ground arith

fields_from-visible :
    (c : ℕ) (s cur : Bytes)
    → IsVisible c
    → fields_from (c ∷ s) 0 cur ≡ fields_from s 0 (cur ++ c ∷ [])
unfolding fields_from
fields_from-visible c s cur h = rw (space_width-IsVisible c s h, fields_from)

-- A visible word is taken over into the current field.
fields_from-word :
    (w s cur : Bytes) → All IsVisible w → fields_from (w ++ s) 0 cur ≡ fields_from s 0 (cur ++ w)
fields_from-word [] s cur h = ap (fields_from s 0) (sym (append-nil cur))
fields_from-word (c ∷ w) s cur h =
    rw (
      fields_from-visible c (w ++ s) cur h.0,
      fields_from-word w s (cur ++ c ∷ []) h.1,
      append_assoc,
    )

fields_from_blank : (s cur : Bytes) → fields_from (b' ' ∷ s) 0 cur ≡ flush cur (fields_from s 0 [])
unfolding fields_from space_width
fields_from_blank s cur = refl

flush-IsWord : (w : Bytes) (rest : List Bytes) → w ≢ [] → flush w rest ≡ w ∷ rest
unfolding flush
flush-IsWord [] rest h = absurd (h refl)
flush-IsWord (c ∷ w) rest h = refl

-- The first word and a blank give a field.
pub fields_word : (w s : Bytes) → IsWord w → fields (w ++ b' ' ∷ s) ≡ w ∷ fields s
unfolding fields
fields_word w s h =
    rw (fields_from-word w (b' ' ∷ s) [] h.0, fields_from_blank)
      (flush-IsWord w (fields_from s 0 []) h.1)

pub fields_last : (w : Bytes) → IsWord w → fields w ≡ w ∷ []
unfolding fields
fields_last w h =
    ap (λ s. fields_from s 0 []) (sym (append-nil w))
    ∙ fields_from-word w [] [] h.0
    ∙ unfold fields_from in flush-IsWord w [] h.1

three_fields :
    fields (b' ' ∷ b'a' ∷ 0xc2 ∷ 0xa0 ∷ b'b' ∷ 0xe2 ∷ 0x80 ∷ 0x83 ∷ 13 ∷ b'c' ∷ [])
    ≡ (b'a' ∷ []) ∷ (b'b' ∷ []) ∷ (b'c' ∷ []) ∷ []
unfolding fields fields_from space_width flush
three_fields = refl
