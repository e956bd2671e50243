-- ===== src/Protocol/Loop/Examples.antt =====
-- Two connections at the same time: one copies with the token, the other sends nothing.
use mathlib.Core.List.{Memᴰ}
use slush.Base.{[], ◌∷◌, ◌≡◌, refl, arith, ok, err}
use slush.Protocol.Loop.Guarded.{Reach-IsAuthorized}
use slush.Protocol.Loop.{
  returned, next, SteppedDesktop, Handler, Running, new_handler, advance, step, serves, accepts,
  handles, Reach, start, later,
}
use slush.Protocol.Server.{read_string}
use slush.Text.{Bytes, codes}

abbrev token : Bytes
token = codes "t0"

-- A memory that is cleared before it is written, in two steps.
abbrev memory : SteppedDesktop Bytes
memory = record {
  copy = λ body. next (λ w. []) (λ w. next (λ w'. body) (λ w'. returned (ok tt)));
  paste = next (λ w. w) (λ w. returned (ok w));
  open_url = λ target. returned (err (codes "no browser"));
}

abbrev copies : Bytes
copies = codes "SLUSH1 t0 COPY 2\nhi"

abbrev silent : Handler Bytes
silent = new_handler []

-- One silent connection has read, and another has come.
abbrev idle : Running Bytes
idle = record {
  loops = 0 ∷ [];
  handlers = silent ∷ (advance memory token silent (codes "kept")).0 ∷ [];
  world = codes "kept";
}

idle-Reach : Reach memory token (codes "kept") idle
idle-Reach =
    later
      (later (later (later start (serves 0)) (accepts 0 [] (Memᴰ.head refl)))
        (handles (step [] [] silent refl refl)))
      (accepts 0 [] (Memᴰ.head refl))

Reach-IsAuthorized_example : idle.world ≡ codes "kept"
unfolding read_string
Reach-IsAuthorized_example =
    Reach-IsAuthorized memory token (codes "kept") idle idle-Reach
      ((λ a. ground (arith, a.arrives)), ((λ a. ground (arith, a.arrives)), tt))
