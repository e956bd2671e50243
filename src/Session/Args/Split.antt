-- ===== src/Session/Args/Split.antt =====
-- Where the ssh arguments are split, and the host that mosh connects to.
use slush.Base.{
  subst, ℕ, suc, ◌+◌, List, [], ◌∷◌, ◌++◌, ◌≡◌, ◌↔◌, refl, sym, ap, ◌∙◌, arith, length, take, drop,
  get_or, ok, >>=-eq-ok, ok-injective,
}
use slush.Session.Args.{
  ssh_scan, index_from, ssh_host_index, ssh_host_operand, split_ssh_remote_command, mosh_scan,
  destination_host_at,
}
use slush.Text.{Bytes, codes}
use slush.Session.Args.Ssh.{SshHostAt, HostAt-SshHostAt, SshHostAt-HostAt}
use slush.Session.Args.Index.{HostAt, HostAt-split, index_from-HostAt, index_from_sound}

module _ {A : Type 0} where
  take_host :
      (pre : List A) (h : A) (command : List A)
      → take (suc (length pre)) (pre ++ h ∷ command) ≡ pre ++ h ∷ []
  take_host [] h command = refl
  take_host (a ∷ pre) h command = ap (◌∷◌ a) (take_host pre h command)

  drop_host :
      (pre : List A) (h : A) (command : List A)
      → drop (suc (length pre)) (pre ++ h ∷ command) ≡ command
  drop_host [] h command = refl
  drop_host (a ∷ pre) h command = drop_host pre h command

  get_host :
      (pre : List A) (h : A) (command : List A) (d : A)
      → get_or (pre ++ h ∷ command) (length pre) d ≡ h
  get_host [] h command d = refl
  get_host (a ∷ pre) h command d = get_host pre h command d

zero_add : (n : ℕ) → 0 + n ≡ n
zero_add n = omega arith

module _ {args pre : List Bytes} {h : Bytes} {command : List Bytes} where
  ssh_host_index-HostAt : HostAt ssh_scan args pre h command → ssh_host_index args ≡ ok (length pre)
  unfolding ssh_host_index
  ssh_host_index-HostAt at =
      index_from-HostAt (codes "ssh") ssh_scan 0 at ∙ ap ok (zero_add (length pre))

  -- Where the relation finds a host, the ssh arguments are split behind it.
  pub split_ssh_remote_command-HostAt :
      HostAt ssh_scan args pre h command
      → split_ssh_remote_command args ≡ ok (pre ++ h ∷ [], command)
  unfolding split_ssh_remote_command
  split_ssh_remote_command-HostAt at =
      rw (ssh_host_index-HostAt at)
        (rw (HostAt-split at, take_host pre h command, drop_host pre h command))

  pub ssh_host_operand-HostAt : HostAt ssh_scan args pre h command → ssh_host_operand args ≡ ok h
  unfolding ssh_host_operand
  ssh_host_operand-HostAt at =
      rw (ssh_host_index-HostAt at) (rw (HostAt-split at, get_host pre h command []))

  pub destination_host_at-HostAt :
      HostAt mosh_scan args pre h command → destination_host_at args ≡ ok (h, length pre)
  unfolding destination_host_at
  destination_host_at-HostAt at =
      rw (index_from-HostAt (codes "mosh") mosh_scan 0 at, zero_add (length pre))
        (rw (HostAt-split at, get_host pre h command []))

split_found :
    (args : List Bytes) {r : List Bytes × List Bytes}
    → split_ssh_remote_command args ≡ ok r
    → (i : ℕ) × (index_from (codes "ssh") ssh_scan args 0 ≡ ok i)
unfolding split_ssh_remote_command ssh_host_index
split_found args e =
    let (i, found, parts) =
      >>=-eq-ok (index_from (codes "ssh") ssh_scan args 0)
        (λ i. ok (take (suc i) args, drop (suc i) args)) e in
    (i, found)

-- The ssh arguments are split into head and command exactly where their host is, which is the last
-- argument of the head: the first argument that begins with no dash and is not the value of an
-- option, or the one behind --. An option has a value of its own when it is a dash and one of
-- bcDEFIJLRSWQlimopGw.
pub split_ssh_remote_command_iff :
    (args head command : List Bytes)
    → (split_ssh_remote_command args ≡ ok (head, command))
      ↔ ((pre : List Bytes) × (h : Bytes) × SshHostAt args pre h command × (head ≡ pre ++ h ∷ []))
split_ssh_remote_command_iff args head command = (sound, complete)
  where
    sound :
        split_ssh_remote_command args ≡ ok (head, command)
        → (pre : List Bytes) × (h : Bytes) × SshHostAt args pre h command × (head ≡ pre ++ h ∷ [])
    sound e =
        let (i, found) = split_found args e in
        let f = index_from_sound (codes "ssh") ssh_scan args 0 found in
        let same = ok-injective (sym e ∙ split_ssh_remote_command-HostAt f.at) in
        (
          f.pre,
          f.host,
          subst (SshHostAt args f.pre f.host) (sym (ap (λ r. r.1) same)) (HostAt-SshHostAt f.at),
          ap (λ r. r.0) same,
        )

    complete :
        ((pre : List Bytes) × (h : Bytes) × SshHostAt args pre h command × (head ≡ pre ++ h ∷ []))
        → split_ssh_remote_command args ≡ ok (head, command)
    complete (pre, h, at, e) = rw e (split_ssh_remote_command-HostAt (SshHostAt-HostAt at))
