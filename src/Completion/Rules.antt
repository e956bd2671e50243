-- ===== src/Completion/Rules.antt =====
-- The rule for what the reading of a configuration file keeps.
use mathlib.Core.List.{Memᴰ}
use mathlib.Core.List.Memᴰ
use slush.Base.{Option, none, some, List, [], ◌∷◌, ◌≡◌, ◌∙◌, inl, inr, refl, ap, Bool-cases}
use slush.Completion.Paths.{Disk, ssh_include_paths}
use slush.Completion.Reading.{
  Found, each, add_found, read_pattern, follow, read_line, read_contents,
}
use slush.Completion.Sets.{each_keeps, each_makes}
use slush.Completion.Syntax.{scan_lines, ssh_config_directive}
use slush.Text.Compare.{equal_iff}
use slush.Text.{Bytes, codes, equal}

-- The lines of a file, if it can be read.
abbrev pub file_lines : Option Bytes → List Bytes
file_lines none = []
file_lines (some contents) = scan_lines contents

-- The values of the lines with a keyword.
pub data Stands (keyword : Bytes) (lines : List Bytes) (value : Bytes) : Type 0 where
  on :
      {line : Bytes} {values : List Bytes}
      → Memᴰ line lines
      → ssh_config_directive line ≡ (keyword, values)
      → Memᴰ value values
      → Stands keyword lines value

module _ (disk : Disk) (home : Bytes) (P : Found → Type 0) (read : Bytes → Found → Found) where
  -- Every host of the lines, and every file that they include, keeps `P`.
  pub record Keeps (lines : List Bytes) : Type 0 where
    pub by_host :
        (host : Bytes) → Stands (codes "host") lines host → (t : Found) → P t → P (add_found host t)
    pub by_include :
        (pattern inner : Bytes)
        → Stands (codes "include") lines pattern
        → Memᴰ inner (ssh_include_paths disk pattern home)
        → (t : Found) → P t
        → P (read inner t)

  follow_keeps :
      (lines : List Bytes) (line : Bytes) (d : Bytes × List Bytes) (found : Found)
      → Keeps lines
      → Memᴰ line lines
      → ssh_config_directive line ≡ d
      → P found
      → P (follow disk home read d found)
  follow_keeps lines line (key, values) found keeps at e h =
      elim (Bool-cases (equal key (codes "host"))) [
        | inl host_key ↦
            let e' = e ∙ ap (λ k. (k, values)) ((equal_iff key (codes "host")).0 host_key) in
            rw host_key
              (each_keeps P add_found values found (λ host i. keeps.by_host host (on at e' i)) h)
        | inr no_host ↦ elim (Bool-cases (equal key (codes "include"))) [
          | inr other ↦ rw (no_host, other) h
          | inl include_key ↦
              let e' =
                e ∙ ap (λ k. (k, values)) ((equal_iff key (codes "include")).0 include_key) in
              rw (no_host, include_key)
                (each_keeps P (read_pattern disk home read) values found
                  (λ pattern i t.
                    each_keeps P read (ssh_include_paths disk pattern home) t
                      λ inner. keeps.by_include pattern inner (on at e' i))
                  h)
        ]
      ]

  pub read_contents_keeps :
      (contents : Option Bytes) (found : Found)
      → Keeps (file_lines contents)
      → P found
      → P (read_contents disk home read contents found)
  read_contents_keeps none found keeps h = h
  read_contents_keeps (some contents) found keeps h =
      each_keeps P (read_line disk home read) (scan_lines contents) found
        (λ line i t.
          follow_keeps (scan_lines contents) line (ssh_config_directive line) t keeps i refl)
        h

-- What every host and every file keeps, and one of them makes, holds after the file.
module _ (disk : Disk) (home : Bytes) (P : Found → Type 0) (read : Bytes → Found → Found) where
  pub record KeepsAll : Type 0 where
    pub by_any_host : (host : Bytes) (t : Found) → P t → P (add_found host t)
    pub by_any_file : (inner : Bytes) (t : Found) → P t → P (read inner t)

  all_lines : (lines : List Bytes) → KeepsAll → Keeps disk home P read lines
  all_lines lines keeps = record {
    by_host = λ host at. keeps.by_any_host host;
    by_include = λ pattern inner at i. keeps.by_any_file inner;
  }

  pub read_contents_keeps_all :
      (contents : Option Bytes) (found : Found)
      → KeepsAll
      → P found
      → P (read_contents disk home read contents found)
  read_contents_keeps_all contents found keeps h =
      read_contents_keeps disk home P read contents found (all_lines (file_lines contents) keeps) h

  pattern_keeps :
      KeepsAll → (pattern : Bytes) (t : Found) → P t → P (read_pattern disk home read pattern t)
  pattern_keeps keeps pattern t =
      each_keeps P read (ssh_include_paths disk pattern home) t λ inner i. keeps.by_any_file inner

  line_keeps : KeepsAll → (line : Bytes) (t : Found) → P t → P (read_line disk home read line t)
  line_keeps keeps line t =
      follow_keeps disk home P read (line ∷ []) line (ssh_config_directive line) t
        (all_lines (line ∷ []) keeps) (Memᴰ.head refl) refl

  line_makes :
      {line : Bytes} {lines : List Bytes}
      → KeepsAll
      → Memᴰ line lines
      → ((t : Found) → P (read_line disk home read line t))
      → (found : Found) → P (each (read_line disk home read) lines found)
  line_makes {line} {lines} keeps at makes found =
      each_makes P (read_line disk home read) line lines found at makes (line_keeps keeps)

  pub host_makes :
      (host : Bytes)
      → KeepsAll
      → ((t : Found) → P (add_found host t))
      → (contents : Option Bytes) (found : Found) → Stands (codes "host") (file_lines contents) host
      → P (read_contents disk home read contents found)
  unfolding equal
  host_makes host keeps makes none found (on at e i) = absurd (Memᴰ.not-nil at)
  host_makes host keeps makes (some contents) found (on {line} {values} at e i) =
      line_makes keeps at
        (λ t. rw e (each_makes P add_found host values t i makes keeps.by_any_host)) found

  pub include_makes :
      (pattern inner : Bytes)
      → KeepsAll
      → ((t : Found) → P (read inner t))
      → (contents : Option Bytes) (found : Found)
      → Stands (codes "include") (file_lines contents) pattern
      → Memᴰ inner (ssh_include_paths disk pattern home)
      → P (read_contents disk home read contents found)
  unfolding equal
  include_makes pattern inner keeps makes none found (on at e i) j = absurd (Memᴰ.not-nil at)
  include_makes pattern inner keeps makes (some contents) found (on {line} {values} at e i) j =
      line_makes keeps at
        (λ t. rw e (
          each_makes P (read_pattern disk home read) pattern values t i
            (λ u.
              each_makes P read inner (ssh_include_paths disk pattern home) u j makes
                keeps.by_any_file)
            (pattern_keeps keeps)))
        found
