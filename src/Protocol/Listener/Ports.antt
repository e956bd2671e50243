-- ===== src/Protocol/Listener/Ports.antt =====
-- The port and the listeners in StartServer and Relisten of internal/protocol/server.go.
use slush.Base.{
  ℕ, some, List, [], ◌∷◌, ◌≡◌, ◌≢◌, refl, ◌⊎◌, inl, inr, arith, All, ok, err, Result-cases,
}
use slush.Base.Int.{ℤ}
use slush.Protocol.Listener.{
  Listener, Sockets, listen, without, close, ServerError, listener_port, Server, listen_bound,
  start_server, relisten, listen_failed,
}
use slush.Text.{Bytes}

-- No listener of the list has the descriptor.
abbrev pub IsFresh : ℕ → List Listener → Type 0
IsFresh d ls = All (λ (l : Listener). l.descriptor ≢ d) ls

pub without-IsFresh : (d : ℕ) (ls : List Listener) → IsFresh d ls → without d ls ≡ ls
unfolding without
without-IsFresh d [] h = refl
without-IsFresh d (l ∷ ls) h = ground (arith, without-IsFresh d ls)

pub without_opened :
    (l : Listener) (ls : List Listener)
    → IsFresh l.descriptor ls
    → without l.descriptor (l ∷ ls) ≡ ls
unfolding without
without_opened l ls h = ground (arith, without-IsFresh l.descriptor ls)

-- The kernel's next listener has a descriptor of its own.
abbrev pub IsKernel : Sockets → ℕ → Type 0
IsKernel s port = (l : Listener) → s.reply s.calls port ≡ ok l → IsFresh l.descriptor s.listening

-- One listener more, whose port is known, or none more and an error.
pub listen_bound_lem :
    (port : ℕ) (s : Sockets)
    → IsKernel s port
    → ((e : ServerError) × ((listen_bound port s).1 ≡ err e)
        × ((listen_bound port s).0.listening ≡ s.listening))
      ⊎ ((l : Listener) × (n : ℤ) × ((listen_bound port s).1 ≡ ok (l, n))
          × (listener_port l ≡ ok n)
          × ((listen_bound port s).0.listening ≡ l ∷ s.listening)
          × (s.reply s.calls port ≡ ok l))
unfolding listen_bound listen close
listen_bound_lem port s kernel = elim (Result-cases (s.reply s.calls port)) [
  | inr (e, failed) ↦
      inl
        (listen_failed port e, rw (failed, listen_bound), rw (failed, listen_bound, listen, failed))
  | inl (l, answered) ↦ elim (Result-cases (listener_port l)) [
    | inr (e, bad) ↦ inl (
      e,
      rw (answered, listen_bound, bad),
      rw (answered, listen_bound, bad, listen, answered)
          (without_opened l s.listening (kernel l answered)),
    )
    | inl (n, good) ↦ inr (
      l,
      n,
      rw (answered, listen_bound, good),
      good,
      rw (answered, listen_bound, good, listen, answered),
      answered,
    )
  ]
]

pub record HasPort (server : Server) : Type 0 where
  pub listener : Listener
  pub holds : server.listener ≡ some listener
  pub published : listener_port listener ≡ ok server.port

-- A server that starts has the port of its listener and the given token, if the kernel gives its
-- next listener a descriptor of its own.
pub start_server-HasPort :
    (port : ℕ) (token : Bytes) (s : Sockets) {server : Server}
    → IsKernel s port
    → (start_server port token s).1 ≡ ok server
    → HasPort server × (server.token ≡ token)
unfolding start_server
start_server-HasPort port token s {server} kernel h = elim (listen_bound_lem port s kernel) [
  | inl (e, failed, same) ↦ let contradiction = rw (failed, start_server) at h in cc
  | inr (l, n, bound, published, open_now, answered) ↦
      let made = rw (bound, start_server) at h in
      (record { listener = l; holds = ground arith; published = ground arith }, ground arith)
]

-- On a server with a listener, if the kernel gives its next listener a descriptor of its own,
-- Relisten fails with the server and the open listeners as they were, or it gives the server a new
-- listener, publishes the port of that, and closes the old one and no other.
pub relisten_lem :
    (server : Server) (old : Listener) (s : Sockets)
    → server.listener ≡ some old
    → IsKernel s 0
    → ((e : ServerError) × ((relisten server s).2 ≡ err e)
        × ((relisten server s).1 ≡ server)
        × ((relisten server s).0.listening ≡ s.listening))
      ⊎ ((l : Listener) × ((relisten server s).2 ≡ ok tt)
          × ((relisten server s).1.listener ≡ some l)
          × (listener_port l ≡ ok (relisten server s).1.port)
          × ((relisten server s).1.token ≡ server.token)
          × ((relisten server s).0.listening ≡ without old.descriptor (l ∷ s.listening)))
unfolding relisten close
relisten_lem server old s has kernel = elim (listen_bound_lem 0 s kernel) [
  | inl (e, failed, same) ↦
      inl (e, rw (failed, relisten), rw (failed, relisten), rw (failed, relisten) same)
  | inr (l, n, bound, published, open_now, answered) ↦ inr (
    l,
    rw (bound, relisten),
    rw (bound, relisten),
    rw (bound, relisten) published,
    rw (bound, relisten),
    rw (bound, relisten, has) (rw open_now),
  )
]
