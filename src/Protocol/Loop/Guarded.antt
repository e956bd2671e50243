-- ===== src/Protocol/Loop/Guarded.antt =====
-- The token in the accept loop of internal/protocol/server.go.
use slush.Base.{
  some, List, [], ◌∷◌, ◌∙◌, ◌++◌, ◌≡◌, inl, inr, refl, sym, subst, All, arith, length, ltb,
  Bool-cases, Option-cases, Result-cases,
}
use slush.Protocol.Header.{parse_clipboard_header, max_header_line}
use slush.Protocol.Loop.{
  Task, answered, header_task, task_of, fresh, SteppedDesktop, Phase, reading, operating, fetching,
  done, Handler, advance, Running, Step, step, serves, accepts, returns, handles, Reach, start,
  later,
}
use slush.Protocol.Server.Auth.{IsAuthorized}
use slush.Protocol.Server.{Conn, read_string}
use slush.Text.Compare.{equal_iff}
use slush.Text.{Bytes, codes, equal, trim_suffix}

-- All that a request without the token leads to is an answer.
abbrev IsAnswered : Task → Type 0
IsAnswered task = (conn : Conn) × (task ≡ answered conn)

module _ (token request : Bytes) (foreign : ¬ IsAuthorized token request) where
  header_task-IsAnswered :
      (line rest : Bytes)
      → read_string request ≡ some (line, rest)
      → IsAnswered (header_task token (record (fresh request) { input = rest }) line)
  unfolding header_task
  header_task-IsAnswered line rest arrives = elim (Bool-cases (ltb max_header_line (length line))) [
    | inl long ↦ rw (long, header_task) (_, refl)
    | inr short ↦ elim (Result-cases (parse_clipboard_header (trim_suffix line (codes "\n")))) [
      | inr (text, e) ↦ rw (short, header_task, e) (_, refl)
      | inl (r, e) ↦ elim (Bool-cases (equal r.token token)) [
        | inr differ ↦ rw (short, header_task, e, differ) (_, refl)
        | inl same ↦ absurd (
            foreign (record {
              line = line;
              rest = rest;
              request = r;
              arrives = arrives;
              fits = ground arith;
              parses = e;
              carries = (equal_iff r.token token).0 same;
            }))
      ]
    ]
  ]

  task_of-IsAnswered : IsAnswered (task_of token (fresh request))
  unfolding task_of
  task_of-IsAnswered = elim (Option-cases (read_string request)) [
    | inl e ↦ rw (e, task_of) (_, refl)
    | inr ((line, rest), e) ↦ rw (e, task_of) (header_task-IsAnswered line rest e)
  ]

abbrev pub IsForeign : {W : Type 0} → Bytes → Handler W → Type 0
IsForeign token h = ¬ IsAuthorized token h.request

module _ {W : Type 0} where
  -- The handler is in no call of the desktop.
  abbrev IsIdle : Phase W → Type 0
  IsIdle reading = Unit
  IsIdle (operating conn call) = ⊥
  IsIdle (fetching conn call) = ⊥
  IsIdle (done conn) = Unit

  abbrev IsKept : Bytes → Handler W → Type 0
  IsKept token h = IsForeign token h → IsIdle h.phase

  module _ (P : Handler W → Type 0) where
    at-All : (before after : List (Handler W)) (h : Handler W) → All P (before ++ h ∷ after) → P h
    at-All [] after h all = all.0
    at-All (b ∷ before) after h all = at-All before after h all.1

    put-All :
        (before after : List (Handler W)) (h h' : Handler W)
        → (P h → P h')
        → All P (before ++ h ∷ after)
        → All P (before ++ h' ∷ after)
    put-All [] after h h' next all = (next all.0, all.1)
    put-All (b ∷ before) after h h' next all = (all.0, put-All before after h h' next all.1)

module _ {W : Type 0} (desktop : SteppedDesktop W) (token : Bytes) where
  -- A step of a handler whose request is foreign leaves it idle, and the desktop as it was.
  advance-IsIdle :
      (h : Handler W) (w : W)
      → IsForeign token h
      → IsIdle h.phase
      → IsIdle (advance desktop token h w).0.phase × ((advance desktop token h w).1 ≡ w)
  advance-IsIdle h w foreign idle = at_phase h.phase idle
    where
      at_phase :
          (phase : Phase W)
          → IsIdle phase
          → IsIdle (advance desktop token (record { request = h.request; phase = phase }) w).0.phase
            × ((advance desktop token (record { request = h.request; phase = phase }) w).1 ≡ w)
      at_phase reading idle =
          let (conn, e) = task_of-IsAnswered token h.request foreign in rw e (tt, refl)
      at_phase (operating conn call) idle = absurd idle
      at_phase (fetching conn call) idle = absurd idle
      at_phase (done conn) idle = (tt, refl)

  -- What holds of a state that was reached from `w`.
  record IsGuarded (w : W) (s : Running W) : Type 0 where
    kept : All (IsKept token) s.handlers
    untouched : All (IsForeign token) s.handlers → s.world ≡ w

  Step-IsGuarded :
      (w : W) (s t : Running W) → Step desktop token s t → IsGuarded w s → IsGuarded w t
  Step-IsGuarded w s t (serves listener) g = record { kept = g.kept; untouched = g.untouched }
  Step-IsGuarded w s t (returns before after listener e) g = record {
    kept = g.kept;
    untouched = g.untouched;
  }
  Step-IsGuarded w s t (accepts listener request i) g = record {
    kept = ((λ foreign. tt), g.kept);
    untouched = λ foreign. g.untouched foreign.1;
  }
  Step-IsGuarded w s t (handles (step before after h e live)) g =
      let h' = (advance desktop token h s.world).0 in
      let kept = subst (All (IsKept token)) e g.kept in
      let moves = advance-IsIdle h s.world in
      record {
        kept =
            put-All (IsKept token) before after h h'
              (λ idle foreign. (moves foreign (idle foreign)).0) kept;
        untouched = λ foreign.
            let own = at-All (IsForeign token) before after h' foreign in
            let others = put-All (IsForeign token) before after h' h (λ f. f) foreign in
            let idle = at-All (IsKept token) before after h kept own in
            (moves own idle).1 ∙ g.untouched (subst (All (IsForeign token)) (sym e) others);
      }

  Reach-IsGuarded : (w : W) (s : Running W) → Reach desktop token w s → IsGuarded w s
  Reach-IsGuarded w s start = record { kept = tt; untouched = λ foreign. refl }
  Reach-IsGuarded w s (later {s = s'} reach next) =
      Step-IsGuarded w s' s next (Reach-IsGuarded w s' reach)

  -- While no request that was accepted begins with a line that carries the token, the desktop is as it
  -- was, however the connections run.
  pub Reach-IsAuthorized :
      (w : W) (s : Running W)
      → Reach desktop token w s
      → All (IsForeign token) s.handlers
      → s.world ≡ w
  Reach-IsAuthorized w s reach foreign = (Reach-IsGuarded w s reach).untouched foreign
