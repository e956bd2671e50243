-- ===== src/Completion/Origins.antt =====
-- Where the hosts come from: the files that the includes reach.
use mathlib.Core.List.{Memᴰ}
use slush.Base.{ℕ, zero, suc, false, ◌∷◌, ◌≡◌, inl, inr, Bool-cases}
use slush.Completion.Paths.{Disk, clean, ssh_include_paths}
use slush.Completion.Reading.{holds, is_unusable, Found, read_ssh_config}
use slush.Completion.Rules.{file_lines, Stands, Keeps, read_contents_keeps}
use slush.Completion.Sets.{AllIn, add_ssh_host-AllIn}
use slush.Text.{Bytes, codes}

module _ (disk : Disk) (home : Bytes) where
  -- The host stands on a Host line of the file, or of one that its Include lines reach with fewer than
  -- the given number of includes inside one another.
  pub data Listed : ℕ → Bytes → Bytes → Type 0 where
    named :
        {n : ℕ} {path host : Bytes}
        → Stands (codes "host") (file_lines (disk.read_file path)) host
        → Listed (suc n) path host
    included :
        {n : ℕ} {path pattern inner host : Bytes}
        → Stands (codes "include") (file_lines (disk.read_file path)) pattern
        → Memᴰ inner (ssh_include_paths disk pattern home)
        → Listed n (clean inner) host
        → Listed (suc n) path host

  module _ (Q : Bytes → Type 0) where
    -- All hosts that are found have the property.
    abbrev pub AllHosts : Found → Type 0
    AllHosts found = AllIn Q found.hosts

    -- All usable hosts that the file lists have the property.
    abbrev pub ListsOnly : ℕ → Bytes → Type 0
    ListsOnly n path = (host : Bytes) → Listed n path host → is_unusable host ≡ false → Q host

    -- The reading adds no host but those that the file lists.
    pub read_ssh_config-AllHosts :
        (n : ℕ) (path : Bytes) (found : Found)
        → ListsOnly n (clean path)
        → AllHosts found
        → AllHosts (read_ssh_config disk home n path found)
    unfolding read_ssh_config
    read_ssh_config-AllHosts zero path found lists h = h
    read_ssh_config-AllHosts (suc n) path found lists h =
        let contents = disk.read_file (clean path) in
        let found' = record found { visited = clean path ∷ found.visited } in
        let keeps : Keeps disk home AllHosts (read_ssh_config disk home n) (file_lines contents) =
          record {
            by_host = λ host at t. add_ssh_host-AllIn Q host t.hosts (lists host (named at));
            by_include = λ pattern inner at i t.
                read_ssh_config-AllHosts n inner t λ host listed. lists host (included at i listed);
          } in
        elim (Bool-cases (holds found.visited (clean path))) [
          | inl seen ↦ rw seen h
          | inr new ↦ rw new (
              read_contents_keeps disk home AllHosts (read_ssh_config disk home n) contents found'
                keeps h)
        ]
