-- ===== src/Completion/Matching.antt =====
-- `completeHost`: what is read, and which hosts fit what was typed.
use slush.Base.{
  ℕ, Bool, true, false, Option, none, some, List, [], ◌∷◌, ◌++◌, if◌then◌else◌, ltb, ◌==◌, map,
}
use slush.Completion.Paths.{Disk, absolute, join_path}
use slush.Completion.Reading.{Found, read_ssh_config, read_known_hosts}
use slush.Text.{Bytes, codes, cut, has_prefix}

-- The order of strings by their bytes.
unfoldable pub before : Bytes → Bytes → Bool
before a [] = false
before [] (y ∷ b) = true
before (x ∷ a) (y ∷ b) = let rest = before a b in if x == y then rest else ltb x y

unfoldable pub insert_sorted : Bytes → List Bytes → List Bytes
insert_sorted x [] = x ∷ []
insert_sorted x (y ∷ ys) =
    let rest = insert_sorted x ys in if before y x then y ∷ rest else x ∷ y ∷ ys

-- `slices.Sort`, as far as its result goes.
unfoldable pub sort : List Bytes → List Bytes
sort [] = []
sort (x ∷ xs) = insert_sorted x (sort xs)

unfoldable pub fitting : Bytes → List Bytes → List Bytes
fitting prefix [] = []
fitting prefix (host ∷ hosts) =
    let rest = fitting prefix hosts in if has_prefix host prefix then host ∷ rest else rest

-- The user with its at sign, and the part of the host.
abbrev pub parts_of : Option (Bytes × Bytes) → Bytes → Bytes × Bytes
parts_of none typed = ([], typed)
parts_of (some (user, prefix)) typed = (user ++ b'@' ∷ [], prefix)

abbrev pub typed_parts : Bytes → Bytes × Bytes
typed_parts typed = parts_of (cut typed (codes "@")) typed

abbrev pub matches_of : Bytes × Bytes → List Bytes → List Bytes
matches_of (user, prefix) hosts = sort (map (λ host. user ++ host) (fitting prefix hosts))

unfoldable pub matches : Bytes → List Bytes → List Bytes
matches typed hosts = matches_of (typed_parts typed) hosts

abbrev pub default_config : Bytes → Bytes → Bytes
default_config home [] = join_path (home ∷ codes ".ssh" ∷ codes "config" ∷ [])
default_config home (c ∷ config) = c ∷ config

abbrev pub include_depth : ℕ
include_depth = 16

abbrev pub nothing_found : Found
nothing_found = record { hosts = []; visited = [] }

abbrev pub read_config : Disk → Bytes → Option Bytes → Found
read_config disk home none = nothing_found
read_config disk home (some path) = read_ssh_config disk home include_depth path nothing_found

abbrev pub known_hosts_path : Bytes → Bytes
known_hosts_path home = join_path (home ∷ codes ".ssh" ∷ codes "known_hosts" ∷ [])

-- The hosts of both files.
unfoldable pub local_hosts : Disk → Bytes → Bytes → List Bytes
local_hosts disk home config =
    read_known_hosts (disk.read_file (known_hosts_path home))
      (read_config disk home (absolute disk (default_config home config))).hosts

abbrev pub complete_at : Disk → Option Bytes → Bytes → Bytes → List Bytes
complete_at disk none config typed = []
complete_at disk (some home) config typed = matches typed (local_hosts disk home config)

-- `completeHost`; file names are never completed.
unfoldable pub complete_host : Disk → List Bytes → Bytes → Bytes → List Bytes
complete_host disk (arg ∷ args) config typed = []
complete_host disk [] config typed = complete_at disk disk.home config typed
