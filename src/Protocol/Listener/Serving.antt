-- ===== src/Protocol/Listener/Serving.antt =====
-- What holds of a server with its listener in internal/protocol/server.go, and its operations.
use slush.Base.{
  Result, err, ℕ, ◌+◌, ◌<◌, some, List, [], ◌∷◌, ◌≡◌, ◌∙◌, refl, inl, inr, arith, All, ok,
  Result-cases,
}
use slush.Protocol.Listener.Ports.{
  without_opened, IsFresh, IsKernel, listen_bound_lem, without-IsFresh,
}
use slush.Protocol.Listener.{
  Listener, Sockets, Server, ServerError, start_server, stop, listener_port, listen, listen_bound,
  close, relisten, without,
}
use slush.Text.{Bytes}

abbrev pub IsBelow : ℕ → List Listener → Type 0
IsBelow n ls = All (λ (l : Listener). l.descriptor < n) ls

-- A socket is named by the number of the call that opened it.
abbrev pub IsNumbered : Sockets → Type 0
IsNumbered s = (call port : ℕ) (l : Listener) → s.reply call port ≡ ok l → l.descriptor ≡ call

-- The server has one listener, with the server's port; all other listeners are `others`.
pub record IsServing (server : Server) (s : Sockets) (token : Bytes) (others : List Listener)
    : Type 0 where
  pub listener : Listener
  pub held : server.listener ≡ some listener
  pub published : listener_port listener ≡ ok server.port
  pub same_token : server.token ≡ token
  pub open_now : s.listening ≡ listener ∷ others
  pub alone : IsFresh listener.descriptor others
  pub numbered : IsNumbered s
  pub before : IsBelow s.calls (listener ∷ others)

-- A listener that was opened before another is a different one.
before-IsFresh : (n : ℕ) (ls : List Listener) → IsBelow n ls → IsFresh n ls
before-IsFresh n [] h = tt
before-IsFresh n (l ∷ ls) h = (λ e. omega (arith, h.0, e), before-IsFresh n ls h.1)

-- Descriptors below `n` stay below what follows it.
IsBelow-next : (m n : ℕ) (ls : List Listener) → m ≡ n + 1 → IsBelow n ls → IsBelow m ls
IsBelow-next m n [] e h = tt
IsBelow-next m n (l ∷ ls) e h = (omega (arith, h.0, e), IsBelow-next m n ls e h.1)

listen_bound-calls :
    (port : ℕ) (s : Sockets)
    → ((listen_bound port s).0.calls ≡ s.calls + 1) × ((listen_bound port s).0.reply ≡ s.reply)
unfolding listen_bound listen close
listen_bound-calls port s = elim (Result-cases (s.reply s.calls port)) [
  | inr (e, failed) ↦ rw (failed, listen_bound) (refl, refl)
  | inl (l, answered) ↦ elim (Result-cases (listener_port l)) [
    | inr (e, bad) ↦ rw (answered, listen_bound, bad) (refl, refl)
    | inl (n, good) ↦ rw (answered, listen_bound, good) (refl, refl)
  ]
]

module _ (server : Server) (s : Sockets) (token : Bytes) (others : List Listener) where
  serving-IsKernel : IsServing server s token others → IsKernel s 0
  serving-IsKernel h l answered =
      rw (h.numbered s.calls 0 l answered, h.open_now)
        (before-IsFresh s.calls (h.listener ∷ others) h.before)

  -- Closing the old listener leaves the new one and the others.
  replaced :
      (h : IsServing server s token others) (l : Listener)
      → s.reply s.calls 0 ≡ ok l
      → (listen_bound 0 s).0.listening ≡ l ∷ s.listening
      → without h.listener.descriptor (listen_bound 0 s).0.listening ≡ l ∷ others
  unfolding without
  replaced h l answered open_now =
      let new = h.numbered s.calls 0 l answered in
      let below = h.before.0 in
      let rest = without-IsFresh h.listener.descriptor others h.alone in
      rw (open_now, h.open_now) (ground (arith, new, below, rest))

  pub relisten-IsServing :
      IsServing server s token others
      → IsServing (relisten server s).1 (relisten server s).0 token others
  unfolding relisten close
  relisten-IsServing h = elim (listen_bound_lem 0 s (serving-IsKernel h)) [
    | inl (e, failed, same) ↦
        rw (failed, relisten)
          record {
            listener = h.listener;
            held = h.held;
            published = h.published;
            same_token = h.same_token;
            open_now = same ∙ h.open_now;
            alone = h.alone;
            numbered = rw ((listen_bound-calls 0 s).1) h.numbered;
            before =
                IsBelow-next _ s.calls (h.listener ∷ others) (listen_bound-calls 0 s).0 h.before;
          }
    | inr (l, n, bound, published, open_now, answered) ↦
        rw (bound, relisten, h.held)
          record {
            listener = l;
            held = refl;
            published = published;
            same_token = h.same_token;
            open_now = replaced h l answered open_now;
            alone = rw (h.numbered s.calls 0 l answered) (before-IsFresh s.calls others h.before.1);
            numbered = rw ((listen_bound-calls 0 s).1) h.numbered;
            before = (
              omega (arith, (listen_bound-calls 0 s).0, h.numbered s.calls 0 l answered),
              IsBelow-next _ s.calls others (listen_bound-calls 0 s).0 h.before.1,
            );
          }
  ]

-- What starting a server leaves.
abbrev pub StartServes : Result ServerError Server → Sockets → Bytes → List Listener → Type 0
StartServes (ok server) s token others = IsServing server s token others
StartServes (err e) s token others = s.listening ≡ others

pub start_server-Serves :
    (port : ℕ) (token : Bytes) (s : Sockets)
    → IsNumbered s
    → IsBelow s.calls s.listening
    → StartServes (start_server port token s).1 (start_server port token s).0 token s.listening
unfolding start_server
start_server-Serves port token s numbered before =
    elim (listen_bound_lem port s λ l answered.
      rw (numbered s.calls port l answered) (before-IsFresh s.calls s.listening before)) [
        | inl (e, failed, same) ↦ rw (failed, start_server) same
        | inr (l, n, bound, published, open_now, answered) ↦
            rw (bound, start_server)
              record {
                listener = l;
                held = refl;
                published = published;
                same_token = refl;
                open_now = open_now;
                alone =
                    rw (numbered s.calls port l answered)
                      (before-IsFresh s.calls s.listening before);
                numbered = rw ((listen_bound-calls port s).1) numbered;
                before = (
                  omega (arith, (listen_bound-calls port s).0, numbered s.calls port l answered),
                  IsBelow-next _ s.calls s.listening (listen_bound-calls port s).0 before,
                );
              }
      ]

-- A server that stops closes its listener and no other.
pub stop-IsServing :
    (server : Server) (s : Sockets) (token : Bytes) (others : List Listener)
    → IsServing server s token others
    → (stop (some server) s).listening ≡ others
unfolding stop close
stop-IsServing server s token others h =
    rw (h.held) (rw (h.open_now) (without_opened h.listener others h.alone))
