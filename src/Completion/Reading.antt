-- ===== src/Completion/Reading.antt =====
-- `readSSHConfig`, `readKnownHosts` and `addSSHHost`.
use slush.Base.{
  ℕ, zero, suc, Bool, true, false, ◌||◌, Option, none, some, List, [], ◌∷◌, if◌then◌else◌, any,
}
use slush.Completion.Paths.{Disk, clean, ssh_include_paths}
use slush.Completion.Syntax.{scan_lines, ssh_config_directive}
use slush.Text.Fields.{fields}
use slush.Text.{Bytes, codes, equal, cut, cut_prefix, has_prefix, contains_any, split}

-- The loop `for x := range xs`.
unfoldable pub each {ℓ κ} : {A : Type ℓ} {S : Type κ} → (A → S → S) → List A → S → S
each body [] s = s
each body (x ∷ xs) s = each body xs (body x s)

-- A set, as a list.
unfoldable pub holds : List Bytes → Bytes → Bool
holds set x = any (equal x) set

abbrev pub insert_host : List Bytes → Bytes → List Bytes
insert_host hosts host = if holds hosts host then hosts else host ∷ hosts

-- The hosts that are no names: empty, with a dash in front, or with a character of a pattern or a user.
unfoldable pub is_unusable : Bytes → Bool
is_unusable host =
    equal host [] || (has_prefix host (codes "-") || contains_any host (codes "*?!|@[]\r\n\t "))

-- `addSSHHost`
unfoldable pub add_ssh_host : Bytes → List Bytes → List Bytes
add_ssh_host host hosts = if is_unusable host then hosts else insert_host hosts host

-- The maps that the reading fills.
pub record Found : Type 0 where
  pub hosts : List Bytes
  pub visited : List Bytes

abbrev pub add_found : Bytes → Found → Found
add_found host found = record found { hosts = add_ssh_host host found.hosts }

module _ (disk : Disk) (home : Bytes) where
  -- The included files of one pattern.
  abbrev pub read_pattern : (Bytes → Found → Found) → Bytes → Found → Found
  read_pattern read pattern found = each read (ssh_include_paths disk pattern home) found

  abbrev pub follow : (Bytes → Found → Found) → Bytes × List Bytes → Found → Found
  follow read (key, values) found =
      if equal key (codes "host")
      then each add_found values found
      else if equal key (codes "include")
      then each (read_pattern read) values found
      else found

  abbrev pub read_line : (Bytes → Found → Found) → Bytes → Found → Found
  read_line read line found = follow read (ssh_config_directive line) found

  abbrev pub read_contents : (Bytes → Found → Found) → Option Bytes → Found → Found
  read_contents read none found = found
  read_contents read (some contents) found = each (read_line read) (scan_lines contents) found

  abbrev pub read_new : (Bytes → Found → Found) → Bool → Bytes → Found → Found
  read_new read true path found = found
  read_new read false path found =
      read_contents read (disk.read_file path) (record found { visited = path ∷ found.visited })

  -- `readSSHConfig`, with the number of includes that may still be nested, which is 16 less the depth.
  unfoldable pub read_ssh_config : ℕ → Bytes → Found → Found
  read_ssh_config zero path found = found
  read_ssh_config (suc left) path found =
      read_new (read_ssh_config left) (holds found.visited (clean path)) (clean path) found

abbrev pub without_authority : List Bytes → List Bytes
without_authority [] = []
without_authority (field ∷ fields) =
    if equal field (codes "@cert-authority") then fields else field ∷ fields

-- OpenSSH writes a host with a port of its own as `[host]:port`.
abbrev pub known_host_name : Bytes → Bytes
known_host_name host = elim (cut host (codes "]:")) [
  | none ↦ host
  | some (bracketed, port) ↦ elim (cut_prefix bracketed (codes "[")) [
    | none ↦ host
    | some name ↦ name
  ]
]

abbrev pub add_known : Bytes → List Bytes → List Bytes
add_known host hosts = add_ssh_host (known_host_name host) hosts

-- The names stand in the first of three fields or more.
abbrev pub known_line_fields : List Bytes → List Bytes → List Bytes
known_line_fields (names ∷ key_type ∷ key ∷ comment) hosts =
    if has_prefix names (codes "#") then hosts else each add_known (split names b',') hosts
known_line_fields (names ∷ key_type ∷ []) hosts = hosts
known_line_fields (names ∷ []) hosts = hosts
known_line_fields [] hosts = hosts

abbrev pub read_known_line : Bytes → List Bytes → List Bytes
read_known_line line hosts = known_line_fields (without_authority (fields line)) hosts

-- `readKnownHosts`
unfoldable pub read_known_hosts : Option Bytes → List Bytes → List Bytes
read_known_hosts none hosts = hosts
read_known_hosts (some contents) hosts = each read_known_line (scan_lines contents) hosts
