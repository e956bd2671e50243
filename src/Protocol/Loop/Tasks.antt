-- ===== src/Protocol/Loop/Tasks.antt =====
-- A handler of the accept loop that nothing interrupts, and `handle` of Protocol.Server.
use slush.Base.{ℕ, zero, suc, ◌≡◌}
use slush.Protocol.Desktop.{Desktop}
use slush.Protocol.Loop.{
  Task, answered, copying, pasting, opening, Call, returned, next, SteppedDesktop, Phase, done,
  Handler, closing, advance,
}
use slush.Protocol.Server.{Conn, answer_operation, answer_paste}
use slush.Text.{Bytes}

module _ {W : Type 0} where
  -- A call from its start to its end.
  abbrev pub call_whole : {R : Type 0} → Call W R → W → W × R
  call_whole (returned r) w = (w, r)
  call_whole (next change goes_on) w = call_whole (goes_on w) (change w)

  -- The desktop whose operations nothing interrupts.
  abbrev pub whole_desktop : SteppedDesktop W → Desktop W
  whole_desktop d = record {
    copy = λ body w. call_whole (d.copy body) w;
    paste = λ w. call_whole d.paste w;
    open_url = λ target w. call_whole (d.open_url target) w;
  }

module _ {W : Type 0} (desktop : Desktop W) where
  abbrev perform_task : Task → W → Conn × W
  perform_task (answered conn) w = (conn, w)
  perform_task (copying conn body) w = answer_operation conn (desktop.copy body w)
  perform_task (pasting conn) w = answer_paste conn (desktop.paste w)
  perform_task (opening conn target) w = answer_operation conn (desktop.open_url target w)

module _ {W : Type 0} (desktop : SteppedDesktop W) (token : Bytes) where
  -- So many steps of a handler, one behind the other.
  abbrev pub advance_times : ℕ → Handler W → W → Handler W × W
  advance_times zero h w = (h, w)
  advance_times (suc n) h w = let (h', w') = advance desktop token h w in advance_times n h' w'

  abbrev in_phase : Bytes → Phase W → Handler W
  in_phase request phase = record { request = request; phase = phase }

  abbrev ended : Bytes → Conn × W → Handler W × W
  ended request (conn, w) = (in_phase request (done (closing conn)), w)

  -- Some number of steps leads there.
  abbrev Arrives : Bytes → Phase W → W → Conn × W → Type 0
  Arrives request phase w r =
      (n : ℕ) × (advance_times n (in_phase request phase) w ≡ ended request r)
