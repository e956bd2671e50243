-- ===== src/Completion/Known.antt =====
-- The hosts of the known_hosts file: which entries name them.
use mathlib.Core.List.{Memᴰ}
use mathlib.Core.List.Memᴰ
use slush.Base.{true, false, Option, none, some, List, [], ◌∷◌, ◌≡◌, inl, inr, refl, Bool-cases}
use slush.Completion.Reading.{
  holds, is_unusable, read_known_hosts, read_known_line, known_line_fields, add_known,
  known_host_name, without_authority,
}
use slush.Completion.Rules.{file_lines}
use slush.Completion.Sets.{
  each_keeps, each_makes, AllIn, add_ssh_host-AllIn, add_ssh_host_new, add_ssh_host_old,
}
use slush.Completion.Syntax.{scan_lines}
use slush.Text.Fields.{fields}
use slush.Text.{Bytes, codes, has_prefix, split}

-- The fields of a line, less a mark of an authority, are those of an entry, and one of the names
-- between the commas of the first is, without brackets and port, the host.
pub data Names : List Bytes → Bytes → Type 0 where
  entry :
      {names key_type key name host : Bytes} {comment : List Bytes}
      → has_prefix names (codes "#") ≡ false
      → Memᴰ name (split names b',')
      → known_host_name name ≡ host
      → Names (names ∷ key_type ∷ key ∷ comment) host

pub data Known (lines : List Bytes) (host : Bytes) : Type 0 where
  on_line :
      {line : Bytes}
      → Memᴰ line lines
      → Names (without_authority (fields line)) host
      → Known lines host

module _ (Q : Bytes → Type 0) where
  known_line_fields-AllIn :
      (words : List Bytes) (hosts : List Bytes)
      → ((host : Bytes) → Names words host → is_unusable host ≡ false → Q host)
      → AllIn Q hosts
      → AllIn Q (known_line_fields words hosts)
  known_line_fields-AllIn [] hosts new h = h
  known_line_fields-AllIn (names ∷ []) hosts new h = h
  known_line_fields-AllIn (names ∷ key_type ∷ []) hosts new h = h
  known_line_fields-AllIn (names ∷ key_type ∷ key ∷ comment) hosts new h =
      elim (Bool-cases (has_prefix names (codes "#"))) [
        | inl comment_line ↦ rw comment_line h
        | inr no_comment ↦ rw no_comment (
            each_keeps (AllIn Q) add_known (split names b',') hosts
              (λ name i t.
                add_ssh_host-AllIn Q (known_host_name name) t
                  (new (known_host_name name) (entry no_comment i refl)))
              h)
      ]

  -- The reading adds no host that no entry names.
  pub read_known_hosts-AllIn :
      (contents : Option Bytes) (hosts : List Bytes)
      → ((host : Bytes) → Known (file_lines contents) host → is_unusable host ≡ false → Q host)
      → AllIn Q hosts
      → AllIn Q (read_known_hosts contents hosts)
  unfolding read_known_hosts
  read_known_hosts-AllIn none hosts new h = h
  read_known_hosts-AllIn (some contents) hosts new h =
      each_keeps (AllIn Q) read_known_line (scan_lines contents) hosts
        (λ line i t.
          known_line_fields-AllIn (without_authority (fields line)) t
            λ host names. new host (on_line i names))
        h

module _ (a : Bytes) where
  abbrev Has : List Bytes → Type 0
  Has hosts = holds hosts a ≡ true

  known_line_fields_keeps :
      (words : List Bytes) (hosts : List Bytes) → Has hosts → Has (known_line_fields words hosts)
  known_line_fields_keeps [] hosts h = h
  known_line_fields_keeps (names ∷ []) hosts h = h
  known_line_fields_keeps (names ∷ key_type ∷ []) hosts h = h
  known_line_fields_keeps (names ∷ key_type ∷ key ∷ comment) hosts h =
      elim (Bool-cases (has_prefix names (codes "#"))) [
        | inl comment_line ↦ rw comment_line h
        | inr no_comment ↦ rw no_comment (
            each_keeps Has add_known (split names b',') hosts
              (λ name i t. add_ssh_host_old (known_host_name name) t a) h)
      ]

  line_keeps : (line : Bytes) (t : List Bytes) → Has t → Has (read_known_line line t)
  line_keeps line t = known_line_fields_keeps (without_authority (fields line)) t

  Names-makes :
      (words hosts : List Bytes)
      → Names words a
      → is_unusable a ≡ false
      → Has (known_line_fields words hosts)
  Names-makes _ hosts (entry {names} {key_type} {key} {name} no_comment i e) good = rw no_comment (
      each_makes Has add_known name (split names b',') hosts i
        (λ t. rw e (add_ssh_host_new a t good))
        (λ name' t. add_ssh_host_old (known_host_name name') t a))

  pub read_known_hosts_keeps :
      (contents : Option Bytes) (hosts : List Bytes)
      → Has hosts
      → Has (read_known_hosts contents hosts)
  unfolding read_known_hosts
  read_known_hosts_keeps none hosts h = h
  read_known_hosts_keeps (some contents) hosts h =
      each_keeps Has read_known_line (scan_lines contents) hosts (λ line i. line_keeps line) h

  -- The usable hosts that an entry names are found.
  pub read_known_hosts-Known :
      (contents : Option Bytes) (hosts : List Bytes)
      → Known (file_lines contents) a
      → is_unusable a ≡ false
      → Has (read_known_hosts contents hosts)
  unfolding read_known_hosts
  read_known_hosts-Known none hosts (on_line i names) good = absurd (Memᴰ.not-nil i)
  read_known_hosts-Known (some contents) hosts (on_line {line} i names) good =
      each_makes Has read_known_line line (scan_lines contents) hosts i
        (λ t. Names-makes (without_authority (fields line)) t names good) line_keeps
