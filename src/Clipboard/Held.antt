-- ===== src/Clipboard/Held.antt =====
-- The events of the search for a clipboard tool, `copyCommand` of internal/desktop/clipboard.go.
use slush.Base.{Bool, List, [], ◌∷◌, Result, ok, err}
use slush.Clipboard.{
  System, darwin, windows, other, Tool, look_command, or_next, first_of, copy_tools, copy_command,
  backend_result, clipboard_backend_name,
}
use slush.Machine.Held.{HoldsSame, HoldsSame-looked_up, HoldsSame-refl, HoldsSame-trans}
use slush.Machine.{Event, Machine}
use slush.Text.{Bytes}

look_command-HoldsSame :
    (name : Bytes) (args : List Bytes) (m : Machine)
    → HoldsSame (look_command name args m).0.log m.log
unfolding look_command
look_command-HoldsSame name args m = HoldsSame-looked_up name m.log

or_next-HoldsSame :
    (r : Machine × Result Bytes Tool) (next : Machine → Machine × Result Bytes Tool)
    (before : List Event)
    → HoldsSame r.0.log before
    → ((m : Machine) → HoldsSame (next m).0.log m.log)
    → HoldsSame (or_next r next).0.log before
or_next-HoldsSame (m, ok tool) next before h later = h
or_next-HoldsSame (m, err e) next before h later = HoldsSame-trans (later m) h

first_of-HoldsSame : (tools : List Tool) (m : Machine) → HoldsSame (first_of tools m).0.log m.log
unfolding first_of
first_of-HoldsSame [] m = HoldsSame-refl m.log
first_of-HoldsSame ((name, args) ∷ tools) m =
    or_next-HoldsSame (look_command name args m) (first_of tools) m.log
      (look_command-HoldsSame name args m) (first_of-HoldsSame tools)

copy_command-HoldsSame :
    (system : System) (wayland : Bool) (m : Machine)
    → HoldsSame (copy_command system wayland m).0.log m.log
copy_command-HoldsSame darwin wayland m = look_command-HoldsSame _ _ m
copy_command-HoldsSame windows wayland m = look_command-HoldsSame _ _ m
copy_command-HoldsSame other wayland m = first_of-HoldsSame (copy_tools wayland) m

backend_result-HoldsSame :
    (r : Machine × Result Bytes Tool) (before : List Event)
    → HoldsSame r.0.log before
    → HoldsSame (backend_result r).0.log before
backend_result-HoldsSame (m, ok (name, args)) before h = h
backend_result-HoldsSame (m, err e) before h = h

pub clipboard_backend_name-HoldsSame :
    (system : System) (wayland : Bool) (m : Machine)
    → HoldsSame (clipboard_backend_name system wayland m).0.log m.log
clipboard_backend_name-HoldsSame system wayland m =
    backend_result-HoldsSame (copy_command system wayland m) m.log
      (copy_command-HoldsSame system wayland m)
