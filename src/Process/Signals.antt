-- ===== src/Process/Signals.antt =====
-- `forwardSignals` of internal/process/run_unix.go: the goroutine that passes signals on to the client,
-- and the channel of one place that `signal.Notify` fills. Deliveries by the runtime, the goroutine and
-- the call of the stop function follow one another in any order, and so do the deliveries of signals that
-- are pending at the same time.
use slush.Base.{Bool, subst, true, false, Option, none, some, List, [], ◌∷◌, ◌++◌, ◌≡◌}

-- `SIGINT`, `SIGTERM`, `SIGQUIT` and `SIGWINCH`
pub data Signal : Type 0 where
  interrupt terminate quit window_changed : Signal

-- What the runtime delivered while the program listened, and what was sent to the client, both the latest first.
pub record Forwarding : Type 0 where
  pub listening : Bool
  pub pending : Option Signal
  pub closed : Bool
  pub ended : Bool
  pub delivered : List Signal
  pub sent : List Signal

abbrev pub forwarding_starts : Forwarding
forwarding_starts = record {
  listening = true;
  pending = none;
  closed = false;
  ended = false;
  delivered = [];
  sent = [];
}

-- A signal that finds the place taken is lost.
abbrev pub kept : Option Signal → Signal → Option Signal
kept none signal = some signal
kept (some first) signal = some first

pub data Move (s : Forwarding) : Forwarding → Type 0 where
  delivers :
      (signal : Signal)
      → s.listening ≡ true
      → Move s (record s { pending = kept s.pending signal; delivered = signal ∷ s.delivered })
  -- `case sig := <-ch`
  sends :
      (signal : Signal)
      → s.pending ≡ some signal
      → s.ended ≡ false
      → Move s (record s { pending = none; sent = signal ∷ s.sent })
  -- The stop function, which is called once.
  stops : s.closed ≡ false → Move s (record s { listening = false; closed = true })
  -- `case <-done`
  returns : s.closed ≡ true → s.ended ≡ false → Move s (record s { ended = true })

pub data Moves (s : Forwarding) : Forwarding → Type 0 where
  none_yet : Moves s s
  then_moves : {t u : Forwarding} → Moves s t → Move t u → Moves s u

-- The first list is the second with some of its elements left out.
pub data LeavesOut : List Signal → List Signal → Type 0 where
  nothing : LeavesOut [] []
  keeps : {xs ys : List Signal} (x : Signal) → LeavesOut xs ys → LeavesOut (x ∷ xs) (x ∷ ys)
  drops : {xs ys : List Signal} (x : Signal) → LeavesOut xs ys → LeavesOut xs (x ∷ ys)

abbrev pub waiting : Option Signal → List Signal
waiting none = []
waiting (some signal) = signal ∷ []

-- What waits comes behind what was sent.
abbrev pub IsForwarded : Forwarding → Type 0
IsForwarded s = LeavesOut (waiting s.pending ++ s.sent) s.delivered

delivers_forwarded :
    (pending : Option Signal) (signal : Signal) (sent delivered : List Signal)
    → LeavesOut (waiting pending ++ sent) delivered
    → LeavesOut (waiting (kept pending signal) ++ sent) (signal ∷ delivered)
delivers_forwarded none signal sent delivered h = keeps signal h
delivers_forwarded (some first) signal sent delivered h = drops signal h

Move-IsForwarded : (s t : Forwarding) → Move s t → IsForwarded s → IsForwarded t
Move-IsForwarded s t (delivers signal on) h =
    delivers_forwarded s.pending signal s.sent s.delivered h
Move-IsForwarded s t (sends signal here live) h =
    subst (λ p. LeavesOut (waiting p ++ s.sent) s.delivered) here h
Move-IsForwarded s t (stops unclosed) h = h
Move-IsForwarded s t (returns closed live) h = h

-- What was sent are signals that were delivered, in the order of their delivery.
pub Moves-IsForwarded : (s : Forwarding) → Moves forwarding_starts s → IsForwarded s
Moves-IsForwarded s none_yet = nothing
Moves-IsForwarded s (then_moves {t = t} before move) =
    Move-IsForwarded t s move (Moves-IsForwarded t before)
