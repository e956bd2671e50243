-- ===== src/Protocol/Loop.antt =====
-- The accept loop of internal/protocol/server.go and the connections that it serves at the same time.
-- A handler reads and checks its request on its own. Its call of the desktop is a sequence of steps,
-- each of which changes what all handlers share; steps of different handlers, new connections and the
-- end of a loop come in any order.
pub mod Tasks
pub mod Guarded
mod Examples
use mathlib.Core.List.{Memᴰ}
use slush.Base.{
  ℕ, zero, suc, Bool, true, false, not, none, some, List, [], ◌∷◌, ◌++◌, ◌≡◌, ◌==◌, ltb,
  if◌then◌else◌, length, Result, ok, err,
}
use slush.Protocol.Header.{parse_clipboard_header, clipboard_version, max_header_line}
use slush.Protocol.Server.{
  Conn, read_string, read_payload, write_response, write_error, constant_time_compare,
  answer_operation, answer_paste,
}
use slush.Text.{Bytes, codes, equal, trim_suffix}

-- What is left to do once the request has been read and checked.
pub data Task : Type 0 where
  answered : Conn → Task
  copying : Conn → Bytes → Task
  pasting : Conn → Task
  opening : Conn → Bytes → Task

unfoldable pub payload_task : Conn → ℕ → (Conn → Bytes → Task) → Task
payload_task conn n task = elim (read_payload conn.input n) [
  | err text ↦ answered (write_error (record conn { input = [] }) text)
  | ok (body, rest) ↦ task (record conn { input = rest }) body
]

unfoldable pub request_task : Conn → Bytes → ℕ → Task
request_task conn verb n =
    if equal verb (codes "HELLO")
    then answered (write_response conn (codes "OK slush-clipboard " ++ clipboard_version))
    else if equal verb (codes "COPY")
    then payload_task conn n copying
    else if equal verb (codes "PASTE")
    then pasting conn
    else if equal verb (codes "OPEN")
    then payload_task conn n opening
    else answered (write_error conn (codes "unknown verb"))

unfoldable pub header_task : Bytes → Conn → Bytes → Task
header_task token conn line =
    if ltb max_header_line (length line)
    then answered (write_error conn (codes "header too long"))
    else elim (parse_clipboard_header (trim_suffix line (codes "\n"))) [
      | err text ↦ answered (write_error conn text)
      | ok request ↦
          if not (constant_time_compare request.token token == 1)
          then answered (write_error conn (codes "unauthorized"))
          else request_task conn request.verb request.payload
    ]

unfoldable pub task_of : Bytes → Conn → Task
task_of token conn = elim (read_string conn.input) [
  | none ↦ answered (write_error (record conn { input = [] }) (codes "read header"))
  | some (line, rest) ↦ header_task token (record conn { input = rest }) line
]

abbrev pub fresh : Bytes → Conn
fresh input = record { input = input; output = []; closed = false }

-- A call that is under way: it has returned, or its next step changes the world, by which it goes on.
pub data Call (W R : Type 0) : Type 0 where
  returned : R → Call W R
  next : (W → W) → (W → Call W R) → Call W R

-- `Copy`, `Paste` and `OpenURL` of internal/desktop, step by step.
pub record SteppedDesktop (W : Type 0) : Type 0 where
  pub copy : Bytes → Call W (Result Bytes (Unit {0}))
  pub paste : Call W (Result Bytes Bytes)
  pub open_url : Bytes → Call W (Result Bytes (Unit {0}))

-- A handler before it has read, in a call of the desktop, and at its end.
pub data Phase (W : Type 0) : Type 0 where
  reading : Phase W
  operating : Conn → Call W (Result Bytes (Unit {0})) → Phase W
  fetching : Conn → Call W (Result Bytes Bytes) → Phase W
  done : Conn → Phase W

-- A goroutine of `handle`, with what its peer sends.
pub record Handler (W : Type 0) : Type 0 where
  pub request : Bytes
  pub phase : Phase W

abbrev pub closing : Conn → Conn
closing conn = record conn { closed = true }

module _ {W : Type 0} where
  abbrev pub begin_task : SteppedDesktop W → Task → Phase W
  begin_task desktop (answered conn) = done (closing conn)
  begin_task desktop (copying conn body) = operating conn (desktop.copy body)
  begin_task desktop (pasting conn) = fetching conn desktop.paste
  begin_task desktop (opening conn target) = operating conn (desktop.open_url target)

  abbrev pub advance_phase : SteppedDesktop W → Bytes → Bytes → Phase W → W → Phase W × W
  advance_phase desktop token request reading w =
      (begin_task desktop (task_of token (fresh request)), w)
  advance_phase desktop token request (operating conn (returned r)) w =
      (done (closing (answer_operation conn (w, r)).0), w)
  advance_phase desktop token request (operating conn (next change goes_on)) w =
      (operating conn (goes_on w), change w)
  advance_phase desktop token request (fetching conn (returned r)) w =
      (done (closing (answer_paste conn (w, r)).0), w)
  advance_phase desktop token request (fetching conn (next change goes_on)) w =
      (fetching conn (goes_on w), change w)
  advance_phase desktop token request (done conn) w = (done conn, w)

  -- The next step of a handler.
  abbrev pub advance : SteppedDesktop W → Bytes → Handler W → W → Handler W × W
  advance desktop token h w =
      let (phase, w') = advance_phase desktop token h.request h.phase w in
      (record { request = h.request; phase = phase }, w')

  abbrev pub is_done : Phase W → Bool
  is_done reading = false
  is_done (operating conn call) = false
  is_done (fetching conn call) = false
  is_done (done conn) = true

-- The goroutines of `serve`, by their listeners, those of `handle`, and the desktop.
pub record Running (W : Type 0) : Type 0 where
  pub loops : List ℕ
  pub handlers : List (Handler W)
  pub world : W

abbrev pub new_handler : {W : Type 0} → Bytes → Handler W
new_handler request = record { request = request; phase = reading }

module _ {W : Type 0} (desktop : SteppedDesktop W) (token : Bytes) where
  -- A handler that is not done, among others, takes its next step.
  pub data Handles (s : Running W) : Running W → Type 0 where
    step :
        (before after : List (Handler W)) (h : Handler W)
        → s.handlers ≡ before ++ h ∷ after
        → is_done h.phase ≡ false
        → Handles s (record s {
          handlers = before ++ (advance desktop token h s.world).0 ∷ after;
          world = (advance desktop token h s.world).1;
        })

  pub data Step (s : Running W) : Running W → Type 0 where
    -- `go serve(ln)`, on the start of the server and on `Relisten`
    serves : (listener : ℕ) → Step s (record s { loops = listener ∷ s.loops })
    -- `Accept` gives a connection, and a handler starts.
    accepts :
        (listener : ℕ) (request : Bytes)
        → Memᴰ listener s.loops
        → Step s (record s { handlers = new_handler request ∷ s.handlers })
    -- `Accept` fails, and the loop ends; the handlers go on.
    returns :
        (before after : List ℕ) (listener : ℕ)
        → s.loops ≡ before ++ listener ∷ after
        → Step s (record s { loops = before ++ after })
    handles : {t : Running W} → Handles s t → Step s t

  pub data Reach (w : W) : Running W → Type 0 where
    start : Reach w (record { loops = []; handlers = []; world = w })
    later : {s t : Running W} → Reach w s → Step s t → Reach w t
