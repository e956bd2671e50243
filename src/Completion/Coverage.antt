-- ===== src/Completion/Coverage.antt =====
-- The hosts of a configuration file and of the files that it includes itself, in `readSSHConfig`.
use mathlib.Core.List.{Memᴰ}
use slush.Base.{ℕ, zero, suc, true, false, List, [], ◌∷◌, ◌≡◌, ◌⊎◌, inl, inr, arith, Bool-cases}
use slush.Completion.Matching.{nothing_found}
use slush.Completion.Origins.{Listed, named, included}
use slush.Completion.Paths.{Disk, clean, ssh_include_paths}
use slush.Completion.Reading.{holds, is_unusable, Found, add_found, read_ssh_config}
use slush.Completion.Rules.{
  file_lines, Stands, KeepsAll, read_contents_keeps_all, host_makes, include_makes,
}
use slush.Completion.Sets.{
  add_ssh_host_new, add_ssh_host_old, holds_cases, holds-head, holds-tail, not-holds-nil,
}
use slush.Text.{Bytes, codes}

abbrev Holds : Bytes → Found → Type 0
Holds host found = holds found.hosts host ≡ true

abbrev Visited : Bytes → Found → Type 0
Visited path found = holds found.visited path ≡ true

module _ (disk : Disk) (home : Bytes) where
  module _ (P : Found → Type 0) where
    -- What new hosts and new visits keep.
    record IsMonotone : Type 0 where
      by_added : (host : Bytes) (t : Found) → P t → P (add_found host t)
      by_visit : (path : Bytes) (t : Found) → P t → P (record t { visited = path ∷ t.visited })

    read_keeps :
        (n : ℕ) (path : Bytes) (found : Found)
        → IsMonotone
        → P found
        → P (read_ssh_config disk home n path found)
    unfolding read_ssh_config
    read_keeps zero path found mono h = h
    read_keeps (suc n) path found mono h =
        let contents = disk.read_file (clean path) in
        let found' = record found { visited = clean path ∷ found.visited } in
        elim (Bool-cases (holds found.visited (clean path))) [
          | inl seen ↦ rw seen h
          | inr new ↦ rw new (
              read_contents_keeps_all disk home P (read_ssh_config disk home n) contents found'
                (record {
                  by_any_host = mono.by_added;
                  by_any_file = λ inner t. read_keeps n inner t mono;
                })
                (mono.by_visit (clean path) found h))
        ]

    all_keep : (n : ℕ) → IsMonotone → KeepsAll disk home P (read_ssh_config disk home n)
    all_keep n mono = record {
      by_any_host = mono.by_added;
      by_any_file = λ inner t. read_keeps n inner t mono;
    }

  Holds-IsMonotone : (a : Bytes) → IsMonotone (Holds a)
  Holds-IsMonotone a = record {
    by_added = λ host t. add_ssh_host_old host t.hosts a;
    by_visit = λ path t h. h;
  }

  Visited-IsMonotone : (q : Bytes) → IsMonotone (Visited q)
  Visited-IsMonotone q = record {
    by_added = λ host t h. h;
    by_visit = λ path t. holds-tail path t.visited q;
  }

  -- The usable hosts of the lines of a file are found.
  abbrev HasAll : Bytes → Found → Type 0
  HasAll path found =
      (host : Bytes)
      → Stands (codes "host") (file_lines (disk.read_file path)) host
      → is_unusable host ≡ false
      → holds found.hosts host ≡ true

  -- Every file that was visited, but those that are still open, has given its hosts.
  record IsSettled (open_files : List Bytes) (found : Found) : Type 0 where
    settles :
        (path : Bytes)
        → holds found.visited path ≡ true
        → (holds open_files path ≡ true) ⊎ HasAll path found

  added_settles :
      (open_files : List Bytes) (host : Bytes) (t : Found)
      → IsSettled open_files t
      → IsSettled open_files (add_found host t)
  added_settles open_files host t h = record {
    settles = λ path seen. elim (h.settles path seen) [
      | inl still ↦ inl still
      | inr done ↦ inr λ a at good. add_ssh_host_old host t.hosts a (done a at good)
    ];
  }

  visit_settles :
      (open_files : List Bytes) (new : Bytes) (t : Found)
      → IsSettled open_files t
      → IsSettled (new ∷ open_files) (record t { visited = new ∷ t.visited })
  visit_settles open_files new t h = record {
    settles = λ path seen. elim (holds_cases new t.visited path seen) [
      | inl e ↦ inl (rw e (holds-head new open_files))
      | inr old ↦ elim (h.settles path old) [
        | inl still ↦ inl (holds-tail new open_files path still)
        | inr done ↦ inr done
      ]
    ];
  }

  -- A file whose hosts are all found is open no longer.
  close_settles :
      (open_files : List Bytes) (path : Bytes) (t : Found)
      → IsSettled (path ∷ open_files) t
      → HasAll path t
      → IsSettled open_files t
  close_settles open_files path t h all = record {
    settles = λ q seen. elim (h.settles q seen) [
      | inr done ↦ inr done
      | inl still ↦ elim (holds_cases path open_files q still) [
        | inl e ↦ inr (rw e all)
        | inr other ↦ inl other
      ]
    ];
  }

  read_settles :
      (n : ℕ) (path : Bytes) (open_files : List Bytes) (found : Found)
      → IsSettled open_files found
      → IsSettled open_files (read_ssh_config disk home n path found)
  unfolding read_ssh_config
  read_settles zero path open_files found h = h
  read_settles (suc n) path open_files found h =
      let p = clean path in
      let contents = disk.read_file p in
      let found' = record found { visited = p ∷ found.visited } in
      let read = read_ssh_config disk home n in
      elim (Bool-cases (holds found.visited p)) [
        | inl seen ↦ rw seen h
        | inr new ↦ rw new (
            close_settles open_files p _
              (read_contents_keeps_all disk home (IsSettled (p ∷ open_files)) read contents found'
                (record {
                  by_any_host = added_settles (p ∷ open_files);
                  by_any_file = λ inner t. read_settles n inner (p ∷ open_files) t;
                })
                (visit_settles open_files p found h))
              λ host at good.
                host_makes disk home (Holds host) read host
                  (all_keep (Holds host) n (Holds-IsMonotone host))
                  (λ t. add_ssh_host_new host t.hosts good) contents found' at)
      ]

  -- A file that is read has been visited, and so have those that it includes.
  read-Visited :
      (n : ℕ) (path : Bytes) (found : Found)
      → Visited (clean path) (read_ssh_config disk home (suc n) path found)
  unfolding read_ssh_config
  read-Visited n path found =
      let p = clean path in
      elim (Bool-cases (holds found.visited p)) [
        | inl seen ↦ rw seen seen
        | inr new ↦ rw new (
            read_contents_keeps_all disk home (Visited p) (read_ssh_config disk home n)
              (disk.read_file p) (record found { visited = p ∷ found.visited })
              (all_keep (Visited p) n (Visited-IsMonotone p)) (holds-head p found.visited))
      ]

  include-Visited :
      (n : ℕ) (path pattern inner : Bytes) (found : Found)
      → holds found.visited (clean path) ≡ false
      → Stands (codes "include") (file_lines (disk.read_file (clean path))) pattern
      → Memᴰ inner (ssh_include_paths disk pattern home)
      → Visited (clean inner) (read_ssh_config disk home (suc (suc n)) path found)
  unfolding read_ssh_config
  include-Visited n path pattern inner found new at i =
      let q = clean inner in
      rw new (
        include_makes disk home (Visited q) (read_ssh_config disk home (suc n)) pattern inner
          (all_keep (Visited q) (suc n) (Visited-IsMonotone q)) (λ t. read-Visited n inner t)
          (disk.read_file (clean path)) (record found { visited = clean path ∷ found.visited }) at
          i)

  nothing_settles : IsSettled [] (record { hosts = []; visited = [] })
  unfolding holds
  nothing_settles = record { settles = λ path seen. inl seen }

  -- Once all is read, the hosts of a visited file are found.
  read-HasAll :
      (n : ℕ) (path q : Bytes)
      → Visited q (read_ssh_config disk home n path nothing_found)
      → HasAll q (read_ssh_config disk home n path nothing_found)
  unfolding holds
  read-HasAll n path q seen =
      let settled = read_settles n path [] nothing_found nothing_settles in
      elim (settled.settles q seen) [ inl still ↦ absurd (ground arith) | inr all ↦ all ]

  pub read_ssh_config-Listed :
      (n : ℕ) (path host : Bytes)
      → Listed disk home 2 (clean path) host
      → is_unusable host ≡ false
      → holds (read_ssh_config disk home (suc (suc n)) path nothing_found).hosts host ≡ true
  read_ssh_config-Listed n path host (named at) good =
      read-HasAll (suc (suc n)) path (clean path) (read-Visited (suc n) path nothing_found) host at
        good
  read_ssh_config-Listed n path host (included {pattern} {inner} at i (named inside)) good =
      read-HasAll (suc (suc n)) path (clean inner)
        (include-Visited n path pattern inner nothing_found (not-holds-nil (clean path)) at i) host
        inside good
  read_ssh_config-Listed n path host (included at i (included at' i' listed)) good = elim listed [ ]
