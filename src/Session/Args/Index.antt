-- ===== src/Session/Args/Index.antt =====
-- The position of the host, against the relation `HostAt`.
use slush.Base.{
  ◌⊎◌, inl, inr, ℕ, ◌+◌, List, [], ◌∷◌, ◌++◌, ◌≡◌, refl, sym, ap, ◌∙◌, arith, length, ok,
  ok-injective,
}
use slush.Session.Args.{Scan, separator, found_here, go_on, skip_value, index_from}
use slush.Text.{Bytes}

-- The arguments are `pre`, the host and `command`: the options in `pre` are passed over with their
-- values, and the host is the first argument that is none, or the one behind a separator.
pub data HostAt (scan : Bytes → Scan) : List Bytes → List Bytes → Bytes → List Bytes → Type 0 where
  here : {a : Bytes} {rest : List Bytes} → scan a ≡ found_here → HostAt scan (a ∷ rest) [] a rest
  behind :
      {a h : Bytes} {rest : List Bytes}
      → scan a ≡ separator
      → HostAt scan (a ∷ h ∷ rest) (a ∷ []) h rest
  past :
      {a h : Bytes} {args pre command : List Bytes}
      → scan a ≡ go_on
      → HostAt scan args pre h command
      → HostAt scan (a ∷ args) (a ∷ pre) h command
  past_value :
      {a v h : Bytes} {args pre command : List Bytes}
      → scan a ≡ skip_value
      → HostAt scan args pre h command
      → HostAt scan (a ∷ v ∷ args) (a ∷ v ∷ pre) h command

pub HostAt-split :
    {scan : Bytes → Scan} {args pre : List Bytes} {h : Bytes} {command : List Bytes}
    → HostAt scan args pre h command
    → args ≡ pre ++ h ∷ command
HostAt-split (here e) = refl
HostAt-split (behind e) = refl
HostAt-split (past {a} e at) = ap (◌∷◌ a) (HostAt-split at)
HostAt-split (past_value {a} {v} e at) = ap (λ l. a ∷ v ∷ l) (HostAt-split at)

pub Scan-cases :
    (s : Scan) → ((s ≡ separator) ⊎ (s ≡ found_here)) ⊎ ((s ≡ go_on) ⊎ (s ≡ skip_value))
Scan-cases separator = inl (inl refl)
Scan-cases found_here = inl (inr refl)
Scan-cases go_on = inr (inl refl)
Scan-cases skip_value = inr (inr refl)

module _ (client : Bytes) (scan : Bytes → Scan) where
  index_from_here :
      (a : Bytes) (rest : List Bytes) (i : ℕ)
      → scan a ≡ found_here
      → index_from client scan (a ∷ rest) i ≡ ok i
  unfolding index_from
  index_from_here a [] i e = rw (e, index_from)
  index_from_here a (b ∷ rest) i e = rw (e, index_from)

  index_from_go_on :
      (a : Bytes) (rest : List Bytes) (i : ℕ)
      → scan a ≡ go_on
      → index_from client scan (a ∷ rest) i ≡ index_from client scan rest (i + 1)
  unfolding index_from
  index_from_go_on a [] i e = rw (e, index_from)
  index_from_go_on a (b ∷ rest) i e = rw (e, index_from)

  index_from_skip :
      (a v : Bytes) (rest : List Bytes) (i : ℕ)
      → scan a ≡ skip_value
      → index_from client scan (a ∷ v ∷ rest) i ≡ index_from client scan rest (i + 2)
  unfolding index_from
  index_from_skip a v rest i e = rw (e, index_from)

  index_from_separator :
      (a h : Bytes) (rest : List Bytes) (i : ℕ)
      → scan a ≡ separator
      → index_from client scan (a ∷ h ∷ rest) i ≡ ok (i + 1)
  unfolding index_from
  index_from_separator a h rest i e = rw (e, index_from)

  pub index_from-HostAt :
      {args pre : List Bytes} {h : Bytes} {command : List Bytes} (i : ℕ)
      → HostAt scan args pre h command
      → index_from client scan args i ≡ ok (i + length pre)
  index_from-HostAt i (here {a} {rest} e) = index_from_here a rest i e ∙ ap ok (omega arith)
  index_from-HostAt i (behind {a} {h} {rest} e) =
      index_from_separator a h rest i e ∙ ap ok (omega arith)
  index_from-HostAt i (past {a} {args} {pre} e at) =
      index_from_go_on a args i e ∙ index_from-HostAt (i + 1) at ∙ ap ok (omega arith)
  index_from-HostAt i (past_value {a} {v} {args} {pre} e at) =
      index_from_skip a v args i e ∙ index_from-HostAt (i + 2) at ∙ ap ok (omega arith)

  index_from_nil : (i : ℕ) {j : ℕ} → index_from client scan [] i ≡ ok j → ⊥
  unfolding index_from
  index_from_nil i e = cc

  index_from_single :
      (a : Bytes) (i : ℕ) {j : ℕ} → index_from client scan (a ∷ []) i ≡ ok j → scan a ≡ found_here
  unfolding index_from
  index_from_single a i e = elim (Scan-cases (scan a)) [
    | inl (inl stops) ↦ let refused = rw (stops, index_from) at e in cc
    | inl (inr found) ↦ found
    | inr (inl goes_on) ↦ let refused = rw (goes_on, index_from) at e in cc
    | inr (inr skips) ↦ let refused = rw (skips, index_from) at e in cc
  ]

  -- A host that is found stands where the relation says.
  pub record Found (args : List Bytes) (i j : ℕ) : Type 0 where
    pub pre : List Bytes
    pub host : Bytes
    pub command : List Bytes
    pub at : HostAt scan args pre host command
    pub position : j ≡ i + length pre

  pub index_from_sound :
      (args : List Bytes) (i : ℕ) {j : ℕ} → index_from client scan args i ≡ ok j → Found args i j
  index_from_sound [] i e = absurd (index_from_nil i e)
  index_from_sound (a ∷ []) i {j} e =
      let found = index_from_single a i e in
      record {
        pre = [];
        host = a;
        command = [];
        at = here found;
        position = omega (arith, ok-injective (sym (index_from_here a [] i found) ∙ e));
      }
  index_from_sound (a ∷ b ∷ rest) i {j} e = elim (Scan-cases (scan a)) [
    | inl (inl stops) ↦ record {
      pre = a ∷ [];
      host = b;
      command = rest;
      at = behind stops;
      position = omega (arith, ok-injective (sym (index_from_separator a b rest i stops) ∙ e));
    }
    | inl (inr found) ↦ record {
      pre = [];
      host = a;
      command = b ∷ rest;
      at = here found;
      position = omega (arith, ok-injective (sym (index_from_here a (b ∷ rest) i found) ∙ e));
    }
    | inr (inl goes_on) ↦
        let f =
          index_from_sound (b ∷ rest) (i + 1) (sym (index_from_go_on a (b ∷ rest) i goes_on) ∙ e) in
        record {
          pre = a ∷ f.pre;
          host = f.host;
          command = f.command;
          at = past goes_on f.at;
          position = omega (arith, f.position);
        }
    | inr (inr skips) ↦
        let f = index_from_sound rest (i + 2) (sym (index_from_skip a b rest i skips) ∙ e) in
        record {
          pre = a ∷ b ∷ f.pre;
          host = f.host;
          command = f.command;
          at = past_value skips f.at;
          position = omega (arith, f.position);
        }
  ]
