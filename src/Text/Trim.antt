-- ===== src/Text/Trim.antt =====
-- `strings.TrimSpace`, with the white space of `Fields`.
use slush.Base.{ℕ, zero, suc, [], ◌∷◌, ◌++◌, ◌≡◌, refl}
use slush.Text.{Bytes, codes}
use slush.Text.Fields.{space_width}

trim_left : Bytes → ℕ → Bytes
trim_left [] skip = []
trim_left (c ∷ s) (suc skip) = trim_left s skip
trim_left (c ∷ s) zero = elim (space_width (c ∷ s)) [ zero ↦ c ∷ s | suc w ↦ trim_left s w ]

-- White space is held back in `held` until a character follows it.
trim_right : Bytes → ℕ → Bytes → Bytes
trim_right [] skip held = []
trim_right (c ∷ s) (suc skip) held = trim_right s skip (held ++ c ∷ [])
trim_right (c ∷ s) zero held = elim (space_width (c ∷ s)) [
  | zero ↦ held ++ c ∷ trim_right s 0 []
  | suc w ↦ trim_right s w (held ++ c ∷ [])
]

unfoldable pub trim_space : Bytes → Bytes
unfolding trim_left trim_right
trim_space s = trim_right (trim_left s 0) 0 []

trims : trim_space (codes " \n a  b\t ") ≡ codes "a  b"
unfolding trim_space space_width
trims = refl
