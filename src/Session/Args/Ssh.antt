-- ===== src/Session/Args/Ssh.antt =====
-- How the ssh arguments read, said without the tests of `sshHostIndex`.
use slush.Base.{
  ℕ, inl, inr, Bool, true, false, List, [], ◌∷◌, ◌≡◌, ◌≢◌, refl, sym, ◌∙◌, arith, subst, ◌==◌,
  Bool-cases,
}
use slush.Session.Args.Index.{HostAt, here, behind, past, past_value, Scan-cases}
use slush.Session.Args.{
  Scan, separator, found_here, go_on, skip_value, is_ssh_option, is_combined_ssh_flag,
  ssh_flags_with_arg, ssh_flag_takes_arg, ssh_scan,
}
use slush.Text.{Bytes, codes, equal, one_of, has_prefix, has_byte}

-- A dash and one of the letters of ssh's options whose value is the next argument.
abbrev pub TakesValue : Bytes → Type 0
TakesValue a = (c : ℕ) × (a ≡ b'-' ∷ c ∷ []) × (has_byte (codes "bcDEFIJLRSWQlimopGw") c ≡ true)

-- The arguments are `pre`, the host and `command`. The host is the first argument that begins with no
-- dash and is no option's value, or the one behind "--".
pub data SshHostAt : List Bytes → List Bytes → Bytes → List Bytes → Type 0 where
  operand :
      {a : Bytes} {rest : List Bytes}
      → has_prefix a (codes "-") ≡ false
      → SshHostAt (a ∷ rest) [] a rest
  behind_dashes :
      {h : Bytes} {rest : List Bytes} → SshHostAt (codes "--" ∷ h ∷ rest) (codes "--" ∷ []) h rest
  option_alone :
      {a h : Bytes} {args pre command : List Bytes}
      → has_prefix a (codes "-") ≡ true
      → a ≢ codes "--"
      → ¬ TakesValue a
      → SshHostAt args pre h command
      → SshHostAt (a ∷ args) (a ∷ pre) h command
  option_with_value :
      {a v h : Bytes} {args pre command : List Bytes}
      → TakesValue a
      → SshHostAt args pre h command
      → SshHostAt (a ∷ v ∷ args) (a ∷ v ∷ pre) h command

found_plain : (a : Bytes) → ssh_scan a ≡ found_here → has_prefix a (codes "-") ≡ false
unfolding ssh_scan is_ssh_option equal has_prefix
found_plain [] h = refl
found_plain (c ∷ []) h = ground arith
found_plain (c ∷ d ∷ a) h = ground arith

plain_found : (a : Bytes) → has_prefix a (codes "-") ≡ false → ssh_scan a ≡ found_here
unfolding ssh_scan is_ssh_option equal has_prefix
plain_found [] h = refl
plain_found (c ∷ []) h = ground arith
plain_found (c ∷ d ∷ []) h = ground arith
plain_found (c ∷ d ∷ e ∷ a) h = ground arith

separator_dashes : (a : Bytes) → ssh_scan a ≡ separator → a ≡ codes "--"
unfolding ssh_scan is_ssh_option equal has_prefix
separator_dashes [] h = ground arith
separator_dashes (c ∷ []) h = ground arith
separator_dashes (c ∷ d ∷ []) h = ground arith
separator_dashes (c ∷ d ∷ e ∷ a) h = ground arith

dashes_separator : ssh_scan (codes "--") ≡ separator
unfolding ssh_scan equal
dashes_separator = refl

dash_of_flag : (c d : ℕ) → ssh_flag_takes_arg (c ∷ d ∷ []) ≡ true → c ≡ b'-'
unfolding ssh_flag_takes_arg one_of equal
dash_of_flag c d h = elim (Bool-cases (c == b'-')) [
  | inl same ↦ ground arith
  | inr differs ↦ let refused = rw differs at h in absurd (ground arith)
]

letter_of_flag :
    (d : ℕ)
    → ssh_flag_takes_arg (b'-' ∷ d ∷ []) ≡ true
    → has_byte (codes "bcDEFIJLRSWQlimopGw") d ≡ true
unfolding ssh_flag_takes_arg one_of equal
letter_of_flag d h = ground arith

takes_of_scan :
    (c d : ℕ) → ssh_scan (c ∷ d ∷ []) ≡ skip_value → ssh_flag_takes_arg (c ∷ d ∷ []) ≡ true
unfolding ssh_scan is_combined_ssh_flag
takes_of_scan c d h = elim (Bool-cases (ssh_flag_takes_arg (c ∷ d ∷ []))) [
  | inl takes ↦ takes
  | inr takes_none ↦ let e = rw (takes_none, is_combined_ssh_flag) at h in absurd (ground arith)
]

abbrev are_short : List Bytes → Bool
are_short [] = true
are_short ((x ∷ y ∷ []) ∷ words) = are_short words
are_short (_ ∷ words) = false

long_one_of :
    (words : List Bytes) (c d e : ℕ) (a : Bytes)
    → are_short words ≡ true
    → one_of words (c ∷ d ∷ e ∷ a) ≡ false
unfolding one_of equal
long_one_of [] c d e a h = refl
long_one_of ([] ∷ words) c d e a h = ground arith
long_one_of ((x ∷ []) ∷ words) c d e a h = ground arith
long_one_of ((x ∷ y ∷ []) ∷ words) c d e a h =
    let rest = long_one_of words c d e a h in ground arith
long_one_of ((x ∷ y ∷ z ∷ word) ∷ words) c d e a h = ground arith

long_takes_none : (c d e : ℕ) (a : Bytes) → ssh_flag_takes_arg (c ∷ d ∷ e ∷ a) ≡ false
unfolding ssh_flag_takes_arg
long_takes_none c d e a = long_one_of ssh_flags_with_arg c d e a refl

long_scan : (c d e : ℕ) (a : Bytes) → ssh_scan (c ∷ d ∷ e ∷ a) ≢ skip_value
unfolding ssh_scan
long_scan c d e a h = let e' = rw (long_takes_none c d e a) at h in ground arith

skip_value-TakesValue : (a : Bytes) → ssh_scan a ≡ skip_value → TakesValue a
unfolding ssh_scan is_ssh_option is_combined_ssh_flag ssh_flag_takes_arg one_of equal has_prefix
skip_value-TakesValue [] h = ground arith
skip_value-TakesValue (c ∷ []) h = ground arith
skip_value-TakesValue (c ∷ d ∷ []) h =
    let takes = takes_of_scan c d h in
    let dash = dash_of_flag c d takes in (d, rw dash refl, letter_of_flag d (rw dash at takes))
skip_value-TakesValue (c ∷ d ∷ e ∷ a) h = absurd (long_scan c d e a h)

TakesValue-skip_value : (a : Bytes) → TakesValue a → ssh_scan a ≡ skip_value
unfolding ssh_scan is_ssh_option is_combined_ssh_flag ssh_flag_takes_arg one_of equal has_prefix
TakesValue-skip_value a (c, e, letter) = rw e (ground arith)

Scan-exclusive : (a : Bytes) {s s' : Scan} → s ≢ s' → ssh_scan a ≡ s → ssh_scan a ≢ s'
Scan-exclusive a differ e e' = differ (sym e ∙ e')

go_on-dash : (a : Bytes) → ssh_scan a ≡ go_on → has_prefix a (codes "-") ≡ true
go_on-dash a e = elim (Bool-cases (has_prefix a (codes "-"))) [
  | inl dash ↦ dash
  | inr plain ↦ absurd (Scan-exclusive a (λ h. cc) e (plain_found a plain))
]

option-go_on :
    (a : Bytes)
    → has_prefix a (codes "-") ≡ true
    → a ≢ codes "--"
    → ¬ TakesValue a
    → ssh_scan a ≡ go_on
option-go_on a dash no_dashes no_value = elim (Scan-cases (ssh_scan a)) [
  | inl (inl stops) ↦ absurd (no_dashes (separator_dashes a stops))
  | inl (inr found) ↦ let plain = found_plain a found in ground arith
  | inr (inl goes_on) ↦ goes_on
  | inr (inr skips) ↦ absurd (no_value (skip_value-TakesValue a skips))
]

pub HostAt-SshHostAt :
    {args pre : List Bytes} {h : Bytes} {command : List Bytes}
    → HostAt ssh_scan args pre h command
    → SshHostAt args pre h command
HostAt-SshHostAt (here {a} {rest} e) = operand (found_plain a e)
HostAt-SshHostAt (behind {a} {h} {rest} e) =
    subst (λ a. SshHostAt (a ∷ h ∷ rest) (a ∷ []) h rest) (sym (separator_dashes a e)) behind_dashes
HostAt-SshHostAt (past {a} e at) =
    option_alone (go_on-dash a e)
      (λ dashes.
        Scan-exclusive a (λ h. cc) e
          (subst (λ a. ssh_scan a ≡ separator) (sym dashes) dashes_separator))
      (λ value. Scan-exclusive a (λ h. cc) e (TakesValue-skip_value a value)) (HostAt-SshHostAt at)
HostAt-SshHostAt (past_value {a} e at) =
    option_with_value (skip_value-TakesValue a e) (HostAt-SshHostAt at)

pub SshHostAt-HostAt :
    {args pre : List Bytes} {h : Bytes} {command : List Bytes}
    → SshHostAt args pre h command
    → HostAt ssh_scan args pre h command
SshHostAt-HostAt (operand {a} plain) = here (plain_found a plain)
SshHostAt-HostAt behind_dashes = behind dashes_separator
SshHostAt-HostAt (option_alone {a} dash no_dashes no_value at) =
    past (option-go_on a dash no_dashes no_value) (SshHostAt-HostAt at)
SshHostAt-HostAt (option_with_value {a} value at) =
    past_value (TakesValue-skip_value a value) (SshHostAt-HostAt at)
