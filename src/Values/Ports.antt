-- ===== src/Values/Ports.antt =====
-- Transport names and port numbers.
use slush.Base.{ℕ, ◌≤◌, ◌<◌, true, Option, none, some, [], ◌∷◌, ◌≡◌, ◌≢◌, ◌↔◌, refl, arith, all, ok}
use slush.Session.Forward.{Transport, auto, ssh, mosh}
use slush.Text.Decimal.Itoa.{itoa-all, itoa-ne-nil, parse_uint-itoa}
use slush.Text.Decimal.{is_digit, itoa, unsigned, parse_uint}
use slush.Text.{Bytes, equal}
use slush.Values.{set_mode, mode_string, decimal, port_in_range, set_port}

-- A transport is read back from its name.
pub set_mode-mode_string : (m : Transport) → set_mode (mode_string m) ≡ ok m
unfolding set_mode mode_string equal
set_mode-mode_string auto = refl
set_mode-mode_string ssh = refl
set_mode-mode_string mosh = refl

abbrev pub IsPort : ℕ → Type 0
IsPort n = (0 < n) × (n ≤ 65535)

decimal-all : (s : Bytes) → s ≢ [] → all is_digit s ≡ true → decimal s ≡ true
decimal-all [] ne h = absurd (ne refl)
decimal-all (c ∷ s) ne h = h

decimal-itoa : (n : ℕ) → decimal (itoa n) ≡ true
decimal-itoa n = decimal-all (itoa n) (itoa-ne-nil n) (itoa-all n)

port_in_range_lem :
    (value : Bytes) (o : Option ℕ) {n : ℕ} → port_in_range value o ≡ ok n → (o ≡ some n) × IsPort n
port_in_range_lem value none h = cc
port_in_range_lem value (some m) h = ground arith

pub set_port-itoa : (n : ℕ) → IsPort n → set_port (itoa n) ≡ ok n
unfolding set_port
set_port-itoa n h = rw (decimal-itoa n, parse_uint-itoa n 16 (omega arith)) (ground arith)

pub set_port_iff :
    (value : Bytes) (n : ℕ)
    → (set_port value ≡ ok n) ↔ ((decimal value ≡ true) × (unsigned value ≡ some n) × IsPort n)
unfolding set_port parse_uint
set_port_iff value n = (sound, complete)
  where
    sound : set_port value ≡ ok n → (decimal value ≡ true) × (unsigned value ≡ some n) × IsPort n
    sound h = ground (arith)

    complete : (decimal value ≡ true) × (unsigned value ≡ some n) × IsPort n → set_port value ≡ ok n
    complete h = ground arith
