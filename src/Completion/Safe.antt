-- ===== src/Completion/Safe.antt =====
-- The completions, by the command's own test of a host.
use slush.Base.{
  true, false, none, some, [], ◌∷◌, ◌++◌, ◌≡◌, inl, inr, refl, sym, subst, Option, append_assoc,
  arith, Bool, any, any-append, Option-cases, ℕ,
}
use slush.Command.{bad_host}
use slush.Completion.Matching.{complete_host, parts_of, typed_parts}
use slush.Completion.Offers.{complete_host_sound}
use slush.Completion.Paths.{Disk}
use slush.Completion.Reading.{holds, is_unusable}
use slush.Text.Compare.{cut_prefix-eq_some}
use slush.Text.{Bytes, codes, cut, cut_prefix, has_prefix, contains_any, has_byte}

cut-eq_some :
    (s sep : Bytes) {before after : Bytes}
    → cut s sep ≡ some (before, after)
    → s ≡ before ++ (sep ++ after)
unfolding cut
cut-eq_some [] sep h = absurd (ground arith)
cut-eq_some (c ∷ s) sep {before} {after} h = elim (Option-cases (cut_prefix (c ∷ s) sep)) [
  | inr (rest, e) ↦ let h' = rw (e, cut) at h in ground (arith, cut_prefix-eq_some (c ∷ s) sep e)
  | inl other ↦ elim (Option-cases (cut s sep)) [
    | inl no_cut ↦ let h' = rw (other, no_cut, cut) at h in absurd (ground arith)
    | inr ((inner, rest), e) ↦
        let h' = rw (other, e, cut) at h in ground (arith, cut-eq_some s sep e)
  ]
]

parts_of-append :
    (o : Option (Bytes × Bytes)) (typed : Bytes)
    → cut typed (codes "@") ≡ o
    → (parts_of o typed).0 ++ (parts_of o typed).1 ≡ typed
parts_of-append none typed e = refl
parts_of-append (some (user, prefix)) typed e =
    rw append_assoc (sym (cut-eq_some typed (codes "@") e))

-- The two parts make up what was typed.
typed_parts-append : (typed : Bytes) → (typed_parts typed).0 ++ (typed_parts typed).1 ≡ typed
typed_parts-append typed = parts_of-append (cut typed (codes "@")) typed refl

has_prefix_behind :
    (user host prefix : Bytes) → has_prefix (user ++ host) (user ++ prefix) ≡ has_prefix host prefix
unfolding has_prefix
has_prefix_behind [] host prefix = refl
has_prefix_behind (c ∷ user) host prefix = ground (arith, has_prefix_behind user host prefix)

any_implies :
    (f g : ℕ → Bool) (s : Bytes)
    → ((c : ℕ) → g c ≡ false → f c ≡ false)
    → any g s ≡ false
    → any f s ≡ false
any_implies f g [] implies h = refl
any_implies f g (c ∷ s) implies h = ground (arith, implies c, any_implies f g s implies)

-- A usable host has no white space, and no dash in front.
usable_clear :
    (host : Bytes) → is_unusable host ≡ false → contains_any host (codes "\r\n\t ") ≡ false
unfolding is_unusable
usable_clear host good =
    let clear : contains_any host (codes "*?!|@[]\r\n\t ") ≡ false = ground arith in
    any_implies (has_byte (codes "\r\n\t ")) (has_byte (codes "*?!|@[]\r\n\t ")) host
      (λ c h. ground arith) clear

begins_plain :
    (user host prefix : Bytes)
    → is_unusable host ≡ false
    → has_prefix (user ++ prefix) (codes "-") ≡ false
    → has_prefix (user ++ host) (codes "-") ≡ false
unfolding is_unusable has_prefix
begins_plain [] host prefix good h = ground arith
begins_plain (c ∷ user) host prefix good h = ground arith

bad_host-append :
    (user host prefix : Bytes)
    → is_unusable host ≡ false
    → bad_host (user ++ prefix) ≡ false
    → bad_host (user ++ host) ≡ false
unfolding bad_host
bad_host-append user host prefix good h =
    let spaces : ℕ → Bool = has_byte (codes "\r\n\t ") in
    ground (
      arith,
      usable_clear host good,
      begins_plain user host prefix good,
      any-append spaces user host,
      any-append spaces user prefix,
    )

-- If what was typed is a host that the command would not reject, every completion of it begins
-- with what was typed, and the command does not reject it either.
pub complete_host-bad_host :
    (disk : Disk) (home config typed m : Bytes)
    → disk.home ≡ some home
    → holds (complete_host disk [] config typed) m ≡ true
    → bad_host typed ≡ false
    → (has_prefix m typed ≡ true) × (bad_host m ≡ false)
complete_host-bad_host disk home config typed m at_home h good =
    let (host, e, begins, known) = complete_host_sound disk home config typed m at_home h in
    let (user, prefix) = typed_parts typed in
    let whole : user ++ prefix ≡ typed = typed_parts-append typed in
    let good' : bad_host (user ++ prefix) ≡ false =
      subst (λ t. bad_host t ≡ false) (sym whole) good in
    let begun : has_prefix m (user ++ prefix) ≡ true = rw (e, has_prefix_behind) begins in
    (
      subst (λ t. has_prefix m t ≡ true) whole begun,
      rw e (bad_host-append user host prefix known.1 good'),
    )
