-- ===== src/Completion/Visits.antt =====
-- The sets of the hosts and of the visited paths, as lists.
use slush.Base.{ℕ, zero, suc, Option, none, some, List, [], ◌∷◌, inl, inr, Bool-cases}
use slush.Completion.Paths.{Disk, clean}
use slush.Completion.Reading.{
  holds, Found, add_found, read_ssh_config, read_known_hosts, read_known_line, known_line_fields,
  add_known, known_host_name, without_authority,
}
use slush.Completion.Rules.{read_contents_keeps}
use slush.Completion.Sets.{each_keeps, IsDistinct, add_ssh_host-IsDistinct}
use slush.Completion.Syntax.{scan_lines}
use slush.Text.Fields.{fields}
use slush.Text.{Bytes, codes, has_prefix, split}

-- The sets hold nothing twice.
pub record IsCollected (found : Found) : Type 0 where
  pub distinct_hosts : IsDistinct found.hosts
  pub distinct_visits : IsDistinct found.visited

add_found-IsCollected :
    (host : Bytes) (found : Found) → IsCollected found → IsCollected (add_found host found)
add_found-IsCollected host found h = record {
  distinct_hosts = add_ssh_host-IsDistinct host found.hosts h.distinct_hosts;
  distinct_visits = h.distinct_visits;
}

-- The reading of a configuration keeps that neither list holds a text twice.
pub read_ssh_config-IsCollected :
    (disk : Disk) (home : Bytes) (n : ℕ) (path : Bytes) (found : Found)
    → IsCollected found
    → IsCollected (read_ssh_config disk home n path found)
unfolding read_ssh_config
read_ssh_config-IsCollected disk home zero path found h = h
read_ssh_config-IsCollected disk home (suc n) path found h =
    let contents = disk.read_file (clean path) in
    let found' = record found { visited = clean path ∷ found.visited } in
    let read = read_ssh_config disk home n in
    elim (Bool-cases (holds found.visited (clean path))) [
      | inl seen ↦ rw seen h
      | inr new ↦ rw new (
          read_contents_keeps disk home IsCollected read contents found'
            (record {
              by_host = λ host at. add_found-IsCollected host;
              by_include = λ pattern inner at i. read_ssh_config-IsCollected disk home n inner;
            })
            (record {
              distinct_hosts = h.distinct_hosts;
              distinct_visits = (new, h.distinct_visits);
            }))
    ]

known_line_fields-IsDistinct :
    (words : List Bytes) (hosts : List Bytes)
    → IsDistinct hosts
    → IsDistinct (known_line_fields words hosts)
known_line_fields-IsDistinct [] hosts h = h
known_line_fields-IsDistinct (names ∷ []) hosts h = h
known_line_fields-IsDistinct (names ∷ key_type ∷ []) hosts h = h
known_line_fields-IsDistinct (names ∷ key_type ∷ key ∷ comment) hosts h =
    elim (Bool-cases (has_prefix names (codes "#"))) [
      | inl comment_line ↦ rw comment_line h
      | inr entry ↦ rw entry (
          each_keeps IsDistinct add_known (split names b',') hosts
            (λ host i t. add_ssh_host-IsDistinct (known_host_name host) t) h)
    ]

pub read_known_hosts-IsDistinct :
    (contents : Option Bytes) (hosts : List Bytes)
    → IsDistinct hosts
    → IsDistinct (read_known_hosts contents hosts)
unfolding read_known_hosts
read_known_hosts-IsDistinct none hosts h = h
read_known_hosts-IsDistinct (some contents) hosts h =
    each_keeps IsDistinct read_known_line (scan_lines contents) hosts
      (λ line i t. known_line_fields-IsDistinct (without_authority (fields line)) t) h
