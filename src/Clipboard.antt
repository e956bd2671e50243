-- ===== src/Clipboard.antt =====
-- internal/desktop/clipboard.go: the native tools for the clipboard and for URLs, over the machine.
pub mod Urls
pub mod Held
pub mod Steps
mod Examples
use slush.Base.{
  ℕ, Bool, true, false, not, ◌&&◌, ◌||◌, Option, none, some, List, [], ◌∷◌, ◌++◌, if◌then◌else◌,
  Result, ok, err, all, leb,
}
use slush.Machine.{Event, looked_up, ran, Outcome, Machine, outcome, after}
use slush.Protocol.Desktop.{Desktop}
use slush.Text.Decimal.{is_digit}
use slush.Text.Trim.{trim_space}
use slush.Text.{Bytes, codes, cut}

-- `runtime.GOOS`; a system that is neither of the first two is treated as Linux.
pub data System : Type 0 where
  darwin windows other : System

abbrev pub is_url_scheme_digit : ℕ → Bool
is_url_scheme_digit c = is_digit c

unfoldable pub is_url_scheme_character : ℕ → Bool
is_url_scheme_character c =
    (leb b'a' c && leb c b'z')
    || ((leb b'A' c && leb c b'Z')
        || (is_digit c || (leb b'+' c && leb c b'+' || (leb b'-' c && leb c b'.'))))

abbrev pub has_url_scheme_parts : Bytes → Bytes → Bool
has_url_scheme_parts [] rest = false
has_url_scheme_parts (c ∷ scheme) [] = false
has_url_scheme_parts (c ∷ scheme) (r ∷ rest) = true

-- The loop over the characters; the first may not be a digit.
abbrev pub scheme_characters : Bytes → Bool
scheme_characters [] = true
scheme_characters (c ∷ scheme) =
    not (is_url_scheme_digit c) && all is_url_scheme_character (c ∷ scheme)

unfoldable pub has_url_scheme : Bytes → Bool
has_url_scheme target = elim (cut target (codes "://")) [
  | none ↦ false
  | some (scheme, rest) ↦ has_url_scheme_parts scheme rest && scheme_characters scheme
]

-- A tool with its path and arguments.
abbrev pub Tool : Type 0
Tool = Bytes × List Bytes

abbrev pub looked : Bytes → List Bytes → Outcome → Option Bytes → Result Bytes Tool
looked name args out none = ok (out.stdout, args)
looked name args out (some e) = err (name ++ (codes " not found on PATH: " ++ e))

-- `lookCommand`
unfoldable pub look_command : Bytes → List Bytes → Machine → Machine × Result Bytes Tool
look_command name args m =
    let out = outcome (looked_up name) m in
    (after (looked_up name) m, looked name args out out.failure)

abbrev pub or_next :
    Machine × Result Bytes Tool
    → (Machine → Machine × Result Bytes Tool)
    → Machine × Result Bytes Tool
or_next (m, ok tool) next = (m, ok tool)
or_next (m, err e) next = next m

abbrev pub no_tool : Machine → Machine × Result Bytes Tool
no_tool m = (m, err (codes "no clipboard tool found (install wl-clipboard or xclip)"))

-- The tools in the order of preference, the last error replaced.
unfoldable pub first_of : List Tool → Machine → Machine × Result Bytes Tool
first_of [] m = no_tool m
first_of ((name, args) ∷ tools) m = or_next (look_command name args m) (first_of tools)

abbrev pub wayland_first : Bool → Tool → List Tool → List Tool
wayland_first true tool tools = tool ∷ tools
wayland_first false tool tools = tools

abbrev pub copy_tools : Bool → List Tool
copy_tools wayland =
    wayland_first wayland (codes "wl-copy", [])
      ((codes "xclip", codes "-selection" ∷ codes "clipboard" ∷ [])
        ∷ (codes "xsel", codes "--clipboard" ∷ codes "--input" ∷ [])
        ∷ [])

abbrev pub paste_tools : Bool → List Tool
paste_tools wayland =
    wayland_first wayland (codes "wl-paste", [])
      ((codes "xclip", codes "-selection" ∷ codes "clipboard" ∷ codes "-o" ∷ [])
        ∷ (codes "xsel", codes "--clipboard" ∷ codes "--output" ∷ [])
        ∷ [])

abbrev pub powershell_args : Bytes → List Bytes
powershell_args command = codes "-NoProfile" ∷ codes "-Command" ∷ command ∷ []

-- `copyCommand`; the flag says that WAYLAND_DISPLAY is set.
abbrev pub copy_command : System → Bool → Machine → Machine × Result Bytes Tool
copy_command darwin wayland m = look_command (codes "pbcopy") [] m
copy_command windows wayland m =
    look_command (codes "powershell") (powershell_args (codes "$input | Set-Clipboard")) m
copy_command other wayland m = first_of (copy_tools wayland) m

abbrev pub paste_command : System → Bool → Machine → Machine × Result Bytes Tool
paste_command darwin wayland m = look_command (codes "pbpaste") [] m
paste_command windows wayland m =
    look_command (codes "powershell") (powershell_args (codes "Get-Clipboard")) m
paste_command other wayland m = first_of (paste_tools wayland) m

abbrev pub open_command : System → Machine → Machine × Result Bytes Tool
open_command darwin m = look_command (codes "open") [] m
open_command windows m =
    look_command (codes "rundll32") (codes "url.dll,FileProtocolHandler" ∷ []) m
open_command other m = look_command (codes "xdg-open") [] m

abbrev pub ran_result : Bytes → Option Bytes → Result Bytes (Unit {0})
ran_result name none = ok tt
ran_result name (some e) = err (name ++ (codes ": " ++ e))

-- `runWithStdin`
abbrev pub run_with_stdin : Bytes → List Bytes → Bytes → Machine → Machine × Result Bytes (Unit {0})
run_with_stdin name args input m =
    (after (ran name args input) m, ran_result name (outcome (ran name args input) m).failure)

abbrev pub output_result : Bytes → Outcome → Option Bytes → Result Bytes Bytes
output_result name out none = ok out.stdout
output_result name out (some e) = err (name ++ (codes ": " ++ e))

-- `runOutput`
abbrev pub run_output : Bytes → List Bytes → Machine → Machine × Result Bytes Bytes
run_output name args m =
    let out = outcome (ran name args []) m in
    (after (ran name args []) m, output_result name out out.failure)

abbrev pub copy_with : Bytes → Machine × Result Bytes Tool → Machine × Result Bytes (Unit {0})
copy_with input (m, err e) = (m, err e)
copy_with input (m, ok (name, args)) = run_with_stdin name args input m

abbrev pub paste_with : Machine × Result Bytes Tool → Machine × Result Bytes Bytes
paste_with (m, err e) = (m, err e)
paste_with (m, ok (name, args)) = run_output name args m

-- The target is the last argument of the tool.
abbrev pub open_with : Bytes → Machine × Result Bytes Tool → Machine × Result Bytes (Unit {0})
open_with target (m, err e) = (m, err e)
open_with target (m, ok (name, args)) = run_with_stdin name (args ++ target ∷ []) [] m

-- The text of the second error goes on with the target, quoted for display, and a hint.
unfoldable pub open_url : System → Bytes → Machine → Machine × Result Bytes (Unit {0})
open_url system target m = elim (trim_space target) [
  | [] ↦ (m, err (codes "empty open target"))
  | c ∷ trimmed ↦ elim (has_url_scheme (c ∷ trimmed)) [
    | false ↦ (m, err (codes "not a URL"))
    | true ↦ open_with (c ∷ trimmed) (open_command system m)
  ]
]

unfoldable pub copy : System → Bool → Bytes → Machine → Machine × Result Bytes (Unit {0})
copy system wayland input m = copy_with input (copy_command system wayland m)

unfoldable pub paste : System → Bool → Machine → Machine × Result Bytes Bytes
paste system wayland m = paste_with (paste_command system wayland m)

abbrev pub backend_result : Machine × Result Bytes Tool → Machine × Bytes
backend_result (m, err e) = (m, codes "unavailable: " ++ e)
backend_result (m, ok (name, args)) = (m, name)

-- `ClipboardBackendName`
abbrev pub clipboard_backend_name : System → Bool → Machine → Machine × Bytes
clipboard_backend_name system wayland m = backend_result (copy_command system wayland m)

-- What the clipboard server asks for.
abbrev pub native_desktop : System → Bool → Desktop Machine
native_desktop system wayland = record {
  copy = copy system wayland;
  paste = paste system wayland;
  open_url = open_url system;
}
