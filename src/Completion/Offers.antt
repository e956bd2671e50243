-- ===== src/Completion/Offers.antt =====
-- What the completion offers: in which order, for what was typed, and from where.
use slush.Base.{
  ℕ, true, false, Option, none, some, List, [], ◌∷◌, ◌++◌, ◌≡◌, inl, inr, ap, arith, map,
  Option-cases,
}
use slush.Completion.Coverage.{read_ssh_config-Listed}
use slush.Completion.Known.{
  Known, read_known_hosts-AllIn, read_known_hosts_keeps, read_known_hosts-Known,
}
use slush.Completion.Matching.{
  matches, typed_parts, fitting, local_hosts, complete_host, complete_at, read_config,
  nothing_found, include_depth, default_config, known_hosts_path,
}
use slush.Completion.Order.{
  IsAscending, holds-behind, fitting_holds, sort-IsAscending, fitting-IsDistinct, behind-IsDistinct,
  holds-sort, holds-fitting, holds-map,
}
use slush.Completion.Origins.{Listed, read_ssh_config-AllHosts}
use slush.Completion.Paths.{Disk, absolute, clean}
use slush.Completion.Reading.{holds, is_unusable}
use slush.Completion.Rules.{file_lines}
use slush.Completion.Sets.{IsDistinct, AllIn, not-holds-nil}
use slush.Completion.Visits.{read_ssh_config-IsCollected, read_known_hosts-IsDistinct}
use slush.Text.{Bytes, has_prefix}

read_config-IsDistinct :
    (disk : Disk) (home : Bytes) (path : Option Bytes)
    → IsDistinct (read_config disk home path).hosts
read_config-IsDistinct disk home none = tt
read_config-IsDistinct disk home (some path) =
    (read_ssh_config-IsCollected disk home include_depth path nothing_found
      (record { distinct_hosts = tt; distinct_visits = tt })).distinct_hosts

matches-IsAscending :
    (typed : Bytes) (hosts : List Bytes) → IsDistinct hosts → IsAscending (matches typed hosts)
unfolding matches
matches-IsAscending typed hosts h =
    let (user, prefix) = typed_parts typed in
    sort-IsAscending (map (λ host. user ++ host) (fitting prefix hosts))
      (behind-IsDistinct user (fitting prefix hosts) (fitting-IsDistinct prefix hosts h))

local_hosts-IsDistinct :
    (disk : Disk) (home config : Bytes) → IsDistinct (local_hosts disk home config)
unfolding local_hosts
local_hosts-IsDistinct disk home config =
    read_known_hosts-IsDistinct (disk.read_file (known_hosts_path home)) _
      (read_config-IsDistinct disk home (absolute disk (default_config home config)))

complete_at-IsAscending :
    (disk : Disk) (home : Option Bytes) (config typed : Bytes)
    → IsAscending (complete_at disk home config typed)
complete_at-IsAscending disk none config typed = tt
complete_at-IsAscending disk (some home) config typed =
    matches-IsAscending typed (local_hosts disk home config)
      (local_hosts-IsDistinct disk home config)

-- What one of the two files of the user names.
pub data Origin (disk : Disk) (home config host : Bytes) (n : ℕ) : Type 0 where
  by_config :
      {path : Bytes}
      → absolute disk (default_config home config) ≡ some path
      → Listed disk home n (clean path) host
      → Origin disk home config host n
  by_known_hosts :
      Known (file_lines (disk.read_file (known_hosts_path home))) host
      → Origin disk home config host n

-- What is offered is usable and named by one of the files.
abbrev pub IsKnown : Disk → Bytes → Bytes → Bytes → Type 0
IsKnown disk home config host =
    Origin disk home config host include_depth × (is_unusable host ≡ false)

local_hosts_sound :
    (disk : Disk) (home config : Bytes)
    → AllIn (IsKnown disk home config) (local_hosts disk home config)
unfolding local_hosts
local_hosts_sound disk home config =
    let Q : Bytes → Type 0 = IsKnown disk home config in
    let from_config : AllIn Q
        (read_config disk home (absolute disk (default_config home config))).hosts =
      elim (Option-cases (absolute disk (default_config home config))) [
        | inl no_path ↦ rw no_path (λ host h. absurd (ground (arith, not-holds-nil host)))
        | inr (path, e) ↦ rw e (
            read_ssh_config-AllHosts disk home Q include_depth path nothing_found
              (λ host listed good. (by_config e listed, good))
              (λ host h. absurd (ground (arith, not-holds-nil host))))
      ] in
    read_known_hosts-AllIn Q (disk.read_file (known_hosts_path home)) _
      (λ host known good. (by_known_hosts known, good)) from_config

-- A usable host that the configuration or a file it includes itself lists, or an entry names.
local_hosts_complete :
    (disk : Disk) (home config host : Bytes)
    → Origin disk home config host 2
    → is_unusable host ≡ false
    → holds (local_hosts disk home config) host ≡ true
unfolding local_hosts
local_hosts_complete disk home config host (by_known_hosts known) good =
    read_known_hosts-Known host (disk.read_file (known_hosts_path home)) _ known good
local_hosts_complete disk home config host (by_config {path} e listed) good =
    read_known_hosts_keeps host (disk.read_file (known_hosts_path home)) _
      (rw e (read_ssh_config-Listed disk home 14 path host listed good))

matches_sound :
    (typed : Bytes) (hosts : List Bytes) (m : Bytes)
    → holds (matches typed hosts) m ≡ true
    → (host : Bytes) × (m ≡ (typed_parts typed).0 ++ host)
      × (has_prefix host (typed_parts typed).1 ≡ true)
      × (holds hosts host ≡ true)
unfolding matches
matches_sound typed hosts m h =
    let (user, prefix) = typed_parts typed in
    let h' = rw holds-sort at h in
    let (host, e, fits) = holds-map user (fitting prefix hosts) m h' in
    let (old, begins) = holds-fitting prefix hosts host fits in (host, e, begins, old)

matches_complete :
    (typed : Bytes) (hosts : List Bytes) (host : Bytes)
    → holds hosts host ≡ true
    → has_prefix host (typed_parts typed).1 ≡ true
    → holds (matches typed hosts) ((typed_parts typed).0 ++ host) ≡ true
unfolding matches
matches_complete typed hosts host h begins =
    let (user, prefix) = typed_parts typed in
    rw (holds-sort, holds-behind) (fitting_holds prefix hosts host h begins)

-- The completions stand in ascending order of their bytes, and none stands twice, in whatever
-- order and however often the files name the hosts.
pub complete_host-IsAscending :
    (disk : Disk) (args : List Bytes) (config typed : Bytes)
    → IsAscending (complete_host disk args config typed)
unfolding complete_host
complete_host-IsAscending disk (arg ∷ args) config typed = tt
complete_host-IsAscending disk [] config typed = complete_at-IsAscending disk disk.home config typed

complete_host_at :
    (disk : Disk) (home config typed : Bytes)
    → disk.home ≡ some home
    → complete_host disk [] config typed ≡ matches typed (local_hosts disk home config)
unfolding complete_host
complete_host_at disk home config typed e = ap (λ h. complete_at disk h config typed) e

-- Every completion is the user that was typed and a host that begins as typed, is usable, and is named
-- by the configuration, with at most sixteen files inside one another, or by an entry of known_hosts.
pub complete_host_sound :
    (disk : Disk) (home config typed m : Bytes)
    → disk.home ≡ some home
    → holds (complete_host disk [] config typed) m ≡ true
    → (host : Bytes) × (m ≡ (typed_parts typed).0 ++ host)
      × (has_prefix host (typed_parts typed).1 ≡ true)
      × IsKnown disk home config host
complete_host_sound disk home config typed m at_home h =
    let h' = rw (complete_host_at disk home config typed at_home) at h in
    let (host, e, begins, old) = matches_sound typed (local_hosts disk home config) m h' in
    (host, e, begins, local_hosts_sound disk home config host old)

-- Every usable host that the configuration, a file that it includes itself, or an entry of
-- known_hosts names, and that begins as typed, is offered behind the user that was typed, even
-- when files include one another.
pub complete_host_complete :
    (disk : Disk) (home config typed host : Bytes)
    → disk.home ≡ some home
    → Origin disk home config host 2
    → is_unusable host ≡ false
    → has_prefix host (typed_parts typed).1 ≡ true
    → holds (complete_host disk [] config typed) ((typed_parts typed).0 ++ host) ≡ true
complete_host_complete disk home config typed host at_home origin good begins =
    rw (complete_host_at disk home config typed at_home) (
      matches_complete typed (local_hosts disk home config) host
        (local_hosts_complete disk home config host origin good) begins)
