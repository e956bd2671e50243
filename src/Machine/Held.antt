-- ===== src/Machine/Held.antt =====
-- What the program holds: the temporary directories that it has not tried to remove and the child
-- processes that it has not waited for. A removal may fail, and is not tried twice.
use slush.Base.{ℕ, ◌+◌, ◌-◌, List, [], ◌∷◌, ◌≡◌, ◌∙◌, refl, if◌then◌else◌}
use slush.Machine.{
  Event, looked_up, ran, started, waited, made_directory, removes_directory, removed_directory,
}
use slush.Text.Compare.{equal_refl}
use slush.Text.{Bytes, equal}

-- The list without the first `d`.
unfoldable pub without_first : Bytes → List Bytes → List Bytes
without_first d [] = []
without_first d (x ∷ xs) = let rest = without_first d xs in if equal d x then xs else x ∷ rest

unfoldable pub directories : List Event → List Bytes
directories [] = []
directories (made_directory d ∷ log) = d ∷ directories log
directories (removes_directory d ∷ log) = without_first d (directories log)
directories (removed_directory d ∷ log) = without_first d (directories log)
directories (_ ∷ log) = directories log

unfoldable pub children : List Event → ℕ
children [] = 0
children (started path args ∷ log) = children log + 1
children (waited ∷ log) = children log - 1
children (_ ∷ log) = children log

-- The same is held after the one log as after the other.
pub record HoldsSame (log log' : List Event) : Type 0 where
  pub same_directories : directories log ≡ directories log'
  pub same_children : children log ≡ children log'

pub without_first_head : (d : Bytes) (xs : List Bytes) → without_first d (d ∷ xs) ≡ xs
unfolding without_first
without_first_head d xs = rw (equal_refl d)

pub HoldsSame-log :
    {log log' log'' : List Event} → log ≡ log' → HoldsSame log' log'' → HoldsSame log log''
HoldsSame-log e h = rw e h

pub HoldsSame-trans :
    {log log' log'' : List Event} → HoldsSame log log' → HoldsSame log' log'' → HoldsSame log log''
HoldsSame-trans h h' = record {
  same_directories = h.same_directories ∙ h'.same_directories;
  same_children = h.same_children ∙ h'.same_children;
}

pub HoldsSame-ran :
    (path : Bytes) (args : List Bytes) (stdin : Bytes) (log : List Event)
    → HoldsSame (ran path args stdin ∷ log) log
unfolding directories children
HoldsSame-ran path args stdin log = record { same_directories = refl; same_children = refl }

pub HoldsSame-refl : (log : List Event) → HoldsSame log log
HoldsSame-refl log = record { same_directories = refl; same_children = refl }

pub HoldsSame-looked_up : (name : Bytes) (log : List Event) → HoldsSame (looked_up name ∷ log) log
unfolding directories children
HoldsSame-looked_up name log = record { same_directories = refl; same_children = refl }
