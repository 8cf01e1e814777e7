-- ===== src/Client/Commands/Editing.antt =====
-- What `renode add` and `renode remove` do to the configuration, on every branch.
use taildog.Prelude.{
  ℕ, ◌≤◌, ◌⊎◌, not, refl, sym, ap, ◌∙◌, ◌≡◌, ◌≢◌, inl, inr, String, true, string_key, Option, none,
  List, [], ◌∷◌, ◌++◌, arith, Result, ok, err, length, keep, has_prefix, has_prefix_self, keep-one,
  keep-fresh, Result-cases,
}
use taildog.Client.Config.{Tunnel, Config, RoundTrips, Disk, ConfigError, load, save}
use taildog.Client.Config.Storage.{IsWritable, load-save, save-IsWritable, IsWritable-save}
use taildog.Client.Commands.{
  Cli, CommandError, loading, saving, no_tunnel, ambiguous, unknown_protocol, invalid_local_port,
  invalid_remote_port, new_tunnel, add_to, cmd_add, matches, drop_one, remove_from, cmd_remove,
  saved,
}
use taildog.Client.Commands.Arguments.{IsProper, Improper, accepted, declined}

saved_cases :
    (k : Cli) (t : Tunnel) (x : Result ConfigError (Unit {0}) × Disk)
    → ((x.0 ≡ ok tt) × (saved k t x ≡ (ok t, x.1)))
      ⊎ ((f : ConfigError) × (x.0 ≡ err f) × (saved k t x ≡ (err (saving f), x.1)))
unfolding saved
saved_cases k t (ok tt, d) = inl (refl, refl)
saved_cases k t (err f, d) = inr (f, refl, refl)

-- What a command asked to be written: `made` says what became of the tunnels.
pub record Edit (k : Cli) (d : Disk) (made : List Tunnel → Tunnel → List Tunnel → Type 0)
    : Type 0 where
  pub before : Config
  pub tunnel : Tunnel
  pub tunnels : List Tunnel
  pub loads : load k.yaml d ≡ ok before
  pub makes : made before.tunnels tunnel tunnels

abbrev pub after :
    (k : Cli) (d : Disk) (made : List Tunnel → Tunnel → List Tunnel → Type 0)
    → Edit k d made
    → Config
after k d made e = record e.before { tunnels = e.tunnels }

-- The three ways a command ends. A refusal has a reason in `Why` and leaves the disk; the write of an
-- edit is stored, or fails with its error and what it left.
pub data Outcome (k : Cli) (d : Disk) (x : Result CommandError Tunnel × Disk)
    (made : List Tunnel → Tunnel → List Tunnel → Type 0) (Why : CommandError → Type 0)
    : Type 0 where
  edited :
      (e : Edit k d made)
      → x.0 ≡ ok e.tunnel
      → load k.yaml x.1 ≡ ok (after k d made e)
      → Outcome k d x made Why
  rejected : (e : CommandError) → x ≡ (err e, d) → Why e → Outcome k d x made Why
  unsaved :
      (e : Edit k d made) (f : ConfigError)
      → (save k.yaml (after k d made e) d).0 ≡ err f
      → x ≡ (err (saving f), (save k.yaml (after k d made e) d).1)
      → Outcome k d x made Why

-- The tunnel of the arguments is new at the end.
pub Added :
    Cli → String → String → String → Option String → List Tunnel → Tunnel → List Tunnel → Type 0
Added k id protocol local remote ts t us =
    IsProper k id protocol local remote t × (us ≡ ts ++ t ∷ [])

-- `t` is the only tunnel whose identifier starts with the prefix; the others are left, in order.
pub Removed : Cli → String → List Tunnel → Tunnel → List Tunnel → Type 0
Removed k prefix ts t us =
    (xs ys : List Tunnel) × (ts ≡ xs ++ t ∷ ys)
    × (us ≡ xs ++ ys)
    × (matches k prefix t ≡ true)
    × (keep (matches k prefix) us ≡ [])

-- How many tunnels of the file have an identifier with the prefix.
abbrev pub Matching : Cli → Disk → String → ℕ → Type 0
Matching k d prefix n =
    (c : Config) × (load k.yaml d ≡ ok c) × (length (keep (matches k prefix) c.tunnels) ≡ n)

-- Why `remove` refuses, for each error; the others are none of it.
abbrev pub Unremovable : Cli → Disk → String → CommandError → Type 0
Unremovable k d prefix (no_tunnel s) = (s ≡ prefix) × Matching k d prefix 0
Unremovable k d prefix (ambiguous s n) = (s ≡ prefix) × (2 ≤ n) × Matching k d prefix n
Unremovable k d prefix (loading e) = load k.yaml d ≡ err e
Unremovable k d prefix (unknown_protocol s) = ⊥
Unremovable k d prefix (invalid_local_port s) = ⊥
Unremovable k d prefix (invalid_remote_port s) = ⊥
Unremovable k d prefix (saving e) = ⊥

module _ (k : Cli) (sound : RoundTrips k.yaml) (d : Disk) (r : d.readable ≡ true) where
  save-Outcome :
      (made : List Tunnel → Tunnel → List Tunnel → Type 0) (Why : CommandError → Type 0)
      (e : Edit k d made)
      → Outcome k d (saved k e.tunnel (save k.yaml (after k d made e) d)) made Why
  save-Outcome made Why e = elim (saved_cases k e.tunnel (save k.yaml (after k d made e) d)) [
    | inl (stored, q) ↦
        edited e (ap (λ x. x.0) q)
          (ap (λ x. load k.yaml x.1) q ∙ load-save k.yaml sound (after k d made e) d r stored)
    | inr (f, failed, q) ↦ unsaved e f failed q
  ]

  -- With a file that can be read and a yaml package whose documents decode to what they were made
  -- from, `renode add` ends in one of three ways: the lowered protocol is known, the ports are
  -- numbers in range, and a load then finds their tunnel at the end of the tunnels; it is refused
  -- with the disk as it was, for an unknown protocol, a local or remote port that is no number in
  -- range, or a file that does not load; or that same edit could not be saved, with the error and
  -- the disk of that save.
  pub cmd_add-Outcome :
      (id protocol local : String) (remote : Option String)
      → Outcome k d
          (cmd_add k id protocol local remote d)
          (Added k id protocol local remote)
          (Improper k d protocol local remote)
  unfolding cmd_add add_to Added
  cmd_add-Outcome id protocol local remote =
      elim (Result-cases (new_tunnel k id protocol local remote)) [
        | inl (e, n) ↦ rejected e (rw n refl) (declined k id protocol local remote d e n)
        | inr (t, y) ↦ elim (Result-cases (load k.yaml d)) [
          | inl (e, n) ↦ rejected (loading e) (rw (y, n) refl) n
          | inr (c, l) ↦
              rw (y, l)
                (save-Outcome _ _ (record {
                  before = c;
                  tunnel = t;
                  tunnels = c.tunnels ++ t ∷ [];
                  loads = l;
                  makes = (accepted k id protocol local remote t y, refl);
                }))
        ]
      ]

  drop_one-Outcome :
      (prefix : String) (c : Config) (ts : List Tunnel)
      → load k.yaml d ≡ ok c
      → keep (matches k prefix) c.tunnels ≡ ts
      → Outcome k d (drop_one k prefix c ts d) (Removed k prefix) (Unremovable k d prefix)
  unfolding drop_one Removed
  drop_one-Outcome prefix c [] l h =
      rejected (no_tunnel prefix) refl (refl, (c, l, ap (λ xs. length xs) h))
  drop_one-Outcome prefix c (t ∷ u ∷ ts) l h =
      rejected (ambiguous prefix (length (t ∷ u ∷ ts))) refl
        (refl, omega arith, (c, l, ap (λ xs. length xs) h))
  drop_one-Outcome prefix c (t ∷ []) l h =
      let (xs, ys, whole, rest, hit, none_left) = keep-one (matches k prefix) t c.tunnels h in
      save-Outcome _ _ (record {
        before = c;
        tunnel = t;
        tunnels = keep (λ x. not (matches k prefix x)) c.tunnels;
        loads = l;
        makes = (xs, ys, whole, rest, hit, rw rest none_left);
      })

  -- With a file that can be read and a yaml package whose documents decode to what they were made
  -- from, `renode remove` ends in one of three ways: the only tunnel whose identifier starts with
  -- the prefix is gone from what a load then finds, the others in their order; it is refused with
  -- the disk as it was, because no tunnel has the prefix, because two or more have it, which it
  -- counts, or because the file does not load; or that same edit could not be saved, with the error
  -- and the disk of that save.
  pub cmd_remove-Outcome :
      (prefix : String)
      → Outcome k d (cmd_remove k prefix d) (Removed k prefix) (Unremovable k d prefix)
  unfolding cmd_remove remove_from
  cmd_remove-Outcome prefix = elim (Result-cases (load k.yaml d)) [
    | inl (e, n) ↦ rejected (loading e) (rw n refl) n
    | inr (c, l) ↦ rw l (drop_one-Outcome prefix c _ l refl)
  ]

saved_ok :
    (k : Cli) (t u : Tunnel) (x : Result ConfigError (Unit {0}) × Disk)
    → (saved k t x).0 ≡ ok u
    → (x.0 ≡ ok tt) × (u ≡ t) × ((saved k t x).1 ≡ x.1)
unfolding saved
saved_ok k t u (ok tt, d) h = (refl, cc, refl)
saved_ok k t u (err e, d) h = cc

saved_success :
    (k : Cli) (t : Tunnel) (x : Result ConfigError (Unit {0}) × Disk)
    → x.0 ≡ ok tt
    → saved k t x ≡ (ok t, x.1)
unfolding saved
saved_success k t (ok tt, d) h = refl
saved_success k t (err e, d) h = cc

module _ (k : Cli) (sound : RoundTrips k.yaml) where
  remove-stored :
      (prefix : String) (c : Config) (t : Tunnel) (d : Disk)
      → IsWritable d
      → d.readable ≡ true
      → load k.yaml d ≡ ok (record c { tunnels = c.tunnels ++ t ∷ [] })
      → keep (matches k prefix) c.tunnels ≡ []
      → matches k prefix t ≡ true
      → k.yaml.marshal c ≢ none
      → let removed = cmd_remove k prefix d in (removed.0 ≡ ok t) × (load k.yaml removed.1 ≡ ok c)
  unfolding cmd_remove remove_from drop_one
  remove-stored prefix c t d w r l fresh hit whole =
      let (one, others) = keep-fresh (matches k prefix) c.tunnels t fresh hit in
      let y = IsWritable-save k.yaml c d w whole in
      let done = saved_success k t (save k.yaml c d) y in
      rw (l, one, others, done) (refl, load-save k.yaml sound c d r y)

  -- After an add that succeeded, under an identifier that no tunnel's identifier starts with, a
  -- remove by that identifier answers the same tunnel, and a load finds the configuration from
  -- before, if the file can be read, yaml can write that configuration, and its documents decode to
  -- what they were made from.
  pub cmd_remove-cmd_add :
      (id protocol local : String) (remote : Option String) (c : Config) (t : Tunnel) (d : Disk)
      → d.readable ≡ true
      → load k.yaml d ≡ ok c
      → keep (matches k id) c.tunnels ≡ []
      → k.yaml.marshal c ≢ none
      → (cmd_add k id protocol local remote d).0 ≡ ok t
      → let removed = cmd_remove k id (cmd_add k id protocol local remote d).1 in
        (removed.0 ≡ ok t) × (load k.yaml removed.1 ≡ ok c)
  unfolding cmd_add add_to
  cmd_remove-cmd_add id protocol local remote c t d r l fresh whole h =
      elim (Result-cases (new_tunnel k id protocol local remote)) [
        | inl (e, n) ↦ absurd (ground (arith, n, h))
        | inr (u, y) ↦
            let grown = record c { tunnels = c.tunnels ++ u ∷ [] } in
            let x = save k.yaml grown d in
            let shape : cmd_add k id protocol local remote d ≡ saved k u x = rw (y, l) refl in
            let h' : (saved k u x).0 ≡ ok t = ap (λ z. z.0) (sym shape) ∙ h in
            let (stored, same, there) = saved_ok k u t x h' in
            let (w, r') = save-IsWritable k.yaml grown d stored in
            let proper = accepted k id protocol local remote u y in
            rw (shape, there, same)
              (remove-stored id c u x.1 w (r' ∙ r) (load-save k.yaml sound grown d r stored) fresh
                (ap (has_prefix id) proper.named ∙ has_prefix_self id) whole)
      ]
