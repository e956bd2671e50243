-- ===== src/Validate/Examples.antt =====
-- A validation on a small machine, whose remote answers nothing that the checks want, and which nothing
-- connects to the clipboard.
use slush.Base.{false, [], ◌∷◌, ◌++◌, ◌≡◌, refl, ok, arith}
use slush.Protocol.Client.{Network, refused}
use slush.Session.Run.Samples.{a_machine, no_sockets, auto_options, empty_assets}
use slush.Session.Tunnel.{ticked}
use slush.Protocol.Token.{generate_token, encode_hex}
use slush.Text.{Bytes, codes, contains}
use slush.Validate.Redact.{redact_token-generate_token}
use slush.Validate.{redact_token}
use slush.Clipboard.{other}
use slush.Protocol.Listener.{start_server}
use slush.Validate.Run.Whole.{IsSound, run_validation-IsSound}
use slush.Validate.Run.{Platform, Validated, served, run_validation}

abbrev cut_off : Network (Unit {0})
cut_off = λ port request w. (w, refused (codes "connection refused"))

abbrev platform : Platform
platform = record { system = other; wayland = false; cause = codes "EOF" }

abbrev short_token : Bytes
short_token = codes "0708"

abbrev validated : Validated cut_off platform
validated =
    served cut_off platform empty_assets auto_options (ticked ∷ []) (17, 18) (codes "linux")
      short_token a_machine tt (start_server 0 short_token no_sockets)

validates :
    run_validation cut_off platform empty_assets auto_options
      (ticked ∷ [])
      (17, 18)
      (codes "linux")
      (ok (7 ∷ 8 ∷ []))
      a_machine
      tt
      no_sockets
    ≡ ok validated
unfolding run_validation generate_token encode_hex
validates = refl

run_validation-IsSound_example : IsSound cut_off platform validated a_machine no_sockets
run_validation-IsSound_example =
    run_validation-IsSound cut_off platform empty_assets auto_options (ticked ∷ []) (17, 18)
      (codes "linux") a_machine no_sockets (ok (7 ∷ 8 ∷ [])) tt
      (λ call port l answered. ground (arith, answered)) tt validates

abbrev random : Bytes
random = 1 ∷ 2 ∷ 3 ∷ 4 ∷ 5 ∷ 6 ∷ 7 ∷ 8 ∷ 9 ∷ 10 ∷ 11 ∷ 12 ∷ 13 ∷ 14 ∷ 15 ∷ 255 ∷ []

abbrev made : Bytes
made = codes "0102030405060708090a0b0c0d0e0fff"

redact_token-generate_token_example :
    contains (redact_token (codes "SLUSH_TOKEN=" ++ made) made) made ≡ false
redact_token-generate_token_example =
    redact_token-generate_token random (codes "SLUSH_TOKEN=" ++ made) refl
      (unfold generate_token encode_hex in refl)
