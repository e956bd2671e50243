-- ===== src/Clipboard/Steps.antt =====
-- The operations of internal/desktop/clipboard.go step by step: each search for a tool and each run is a
-- step of its own, between which other connections may go on.
use slush.Base.{Bool, true, false, List, [], ◌∷◌, ◌++◌, Result, ok, err}
use slush.Clipboard
use slush.Clipboard.{
  System, darwin, windows, other, Tool, looked, copy_tools, paste_tools, powershell_args,
  ran_result, output_result, has_url_scheme, open_url,
}
use slush.Machine.{looked_up, ran, Machine, outcome, after}
use slush.Protocol.Loop.{Call, returned, next, SteppedDesktop}
use slush.Text.Trim.{trim_space}
use slush.Text.{Bytes, codes}

module _ {R : Type 0} where
  abbrev pub look_step : Bytes → List Bytes → (Result Bytes Tool → Call Machine R) → Call Machine R
  look_step name args goes_on =
      next (after (looked_up name))
        (λ m. let out = outcome (looked_up name) m in goes_on (looked name args out out.failure))

  abbrev pub or_step :
      (Result Bytes Tool → Call Machine R) → Call Machine R → Result Bytes Tool → Call Machine R
  or_step goes_on rest (ok tool) = goes_on (ok tool)
  or_step goes_on rest (err e) = rest

  unfoldable pub first_step : List Tool → (Result Bytes Tool → Call Machine R) → Call Machine R
  first_step [] goes_on =
      goes_on (err (codes "no clipboard tool found (install wl-clipboard or xclip)"))
  first_step ((name, args) ∷ tools) goes_on =
      look_step name args (or_step goes_on (first_step tools goes_on))

abbrev pub run_step : Bytes → Result Bytes Tool → Call Machine (Result Bytes (Unit {0}))
run_step input (err e) = returned (err e)
run_step input (ok (name, args)) =
    next (after (ran name args input))
      (λ m. returned (ran_result name (outcome (ran name args input) m).failure))

abbrev pub output_step : Result Bytes Tool → Call Machine (Result Bytes Bytes)
output_step (err e) = returned (err e)
output_step (ok (name, args)) =
    next (after (ran name args []))
      (λ m. let out = outcome (ran name args []) m in returned (output_result name out out.failure))

abbrev pub open_step : Bytes → Result Bytes Tool → Call Machine (Result Bytes (Unit {0}))
open_step target (err e) = returned (err e)
open_step target (ok (name, args)) = run_step [] (ok (name, args ++ target ∷ []))

module _ {R : Type 0} where
  abbrev pub copy_search : System → Bool → (Result Bytes Tool → Call Machine R) → Call Machine R
  copy_search darwin wayland = look_step (codes "pbcopy") []
  copy_search windows wayland =
      look_step (codes "powershell") (powershell_args (codes "$input | Set-Clipboard"))
  copy_search other wayland = first_step (copy_tools wayland)

  abbrev pub paste_search : System → Bool → (Result Bytes Tool → Call Machine R) → Call Machine R
  paste_search darwin wayland = look_step (codes "pbpaste") []
  paste_search windows wayland =
      look_step (codes "powershell") (powershell_args (codes "Get-Clipboard"))
  paste_search other wayland = first_step (paste_tools wayland)

  abbrev pub open_search : System → (Result Bytes Tool → Call Machine R) → Call Machine R
  open_search darwin = look_step (codes "open") []
  open_search windows = look_step (codes "rundll32") (codes "url.dll,FileProtocolHandler" ∷ [])
  open_search other = look_step (codes "xdg-open") []

unfoldable pub open_steps : System → Bytes → Call Machine (Result Bytes (Unit {0}))
open_steps system target = elim (trim_space target) [
  | [] ↦ returned (err (codes "empty open target"))
  | c ∷ trimmed ↦ elim (has_url_scheme (c ∷ trimmed)) [
    | false ↦ returned (err (codes "not a URL"))
    | true ↦ open_search system (open_step (c ∷ trimmed))
  ]
]

abbrev pub native_steps : System → Bool → SteppedDesktop Machine
native_steps system wayland = record {
  copy = λ body. copy_search system wayland (run_step body);
  paste = paste_search system wayland output_step;
  open_url = open_steps system;
}
