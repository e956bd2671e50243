-- ===== src/Completion/Paths.antt =====
-- What the completion uses of the package path/filepath, on systems with slashes, and the files of the
-- machine, of which nothing is assumed.
use slush.Base.{
  Bool, true, false, Option, none, some, List, [], ◌∷◌, ◌++◌, if◌then◌else◌, ◌≡◌, refl,
}
use slush.Text.{Bytes, codes, equal, cut_prefix, has_prefix, split, split_onto, join}

-- `os.ReadFile`, `filepath.Glob`, `os.UserHomeDir` and the working directory; none is a failure.
pub record Disk : Type 0 where
  pub read_file : Bytes → Option Bytes
  pub glob : Bytes → List Bytes
  pub home : Option Bytes
  pub working_directory : Option Bytes

-- One more element on the stack of those that are kept, the last first.
abbrev pub push_parent : Bool → List Bytes → List Bytes
push_parent true [] = []
push_parent false [] = codes ".." ∷ []
push_parent rooted (top ∷ kept) = if equal top (codes "..") then codes ".." ∷ top ∷ kept else kept

abbrev pub push_element : Bool → Bytes → List Bytes → List Bytes
push_element rooted element kept =
    if equal element []
    then kept
    else if equal element (codes ".")
    then kept
    else if equal element (codes "..")
    then push_parent rooted kept
    else element ∷ kept

abbrev pub kept_elements : Bool → List Bytes → List Bytes → List Bytes
kept_elements rooted [] kept = kept
kept_elements rooted (element ∷ elements) kept =
    kept_elements rooted elements (push_element rooted element kept)

-- The stack as a path, in front of what follows.
abbrev pub path_of : List Bytes → Bytes → Bytes
path_of [] rest = rest
path_of (element ∷ []) rest = element ++ rest
path_of (element ∷ below ∷ kept) rest = path_of (below ∷ kept) (b'/' ∷ (element ++ rest))

abbrev pub is_abs : Bytes → Bool
is_abs path = has_prefix path (codes "/")

abbrev pub or_dot : Bytes → Bytes
or_dot [] = codes "."
or_dot (c ∷ path) = c ∷ path

-- `filepath.Clean`
unfoldable pub clean : Bytes → Bytes
clean path =
    let kept = path_of (kept_elements (is_abs path) (split path b'/') []) [] in
    if is_abs path then b'/' ∷ kept else or_dot kept

abbrev pub filled : List Bytes → List Bytes
filled [] = []
filled ([] ∷ elements) = filled elements
filled ((c ∷ element) ∷ elements) = (c ∷ element) ∷ filled elements

abbrev pub clean_joined : List Bytes → Bytes
clean_joined [] = []
clean_joined (element ∷ elements) = clean (join (element ∷ elements) (codes "/"))

-- `filepath.Join`
abbrev pub join_path : List Bytes → Bytes
join_path elements = clean_joined (filled elements)

-- `filepath.Abs`
abbrev pub absolute : Disk → Bytes → Option Bytes
absolute disk path =
    if is_abs path
    then some (clean path)
    else elim disk.working_directory [ none ↦ none | some dir ↦ some (join_path (dir ∷ path ∷ [])) ]

-- The pattern of an include, which stands below the home directory unless it is absolute.
abbrev pub include_pattern : Bytes → Bytes → Bytes
include_pattern pattern home = elim (cut_prefix pattern (codes "~/")) [
  | some suffix ↦ join_path (home ∷ suffix ∷ [])
  | none ↦ if is_abs pattern then pattern else join_path (home ∷ codes ".ssh" ∷ pattern ∷ [])
]

-- `sshIncludePaths`
abbrev pub ssh_include_paths : Disk → Bytes → Bytes → List Bytes
ssh_include_paths disk pattern home = disk.glob (include_pattern pattern home)

cleans :
    (clean (codes "/a//b/./../c/") ≡ codes "/a/c")
    × (clean (codes "../x/..") ≡ codes "..")
    × (clean (codes "/..") ≡ codes "/")
    × (clean [] ≡ codes ".")
    × (join_path (codes "/home" ∷ codes ".ssh" ∷ codes "a/b" ∷ []) ≡ codes "/home/.ssh/a/b")
unfolding clean split_onto equal has_prefix join
cleans = (refl, refl, refl, refl, refl)
