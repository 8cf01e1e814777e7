-- ===== src/Client/Commands/Arguments.antt =====
-- The arguments that `renode add` accepts.
use taildog.Prelude.{
  refl, ap, ℕ, ℤ, pos, negsuc, ◌≤◌, ◌≡◌, inl, inr, String, true, false, string_key, Option, none,
  some, arith, ok, err, atoi, Bool-cases, Result-cases,
}
use taildog.Client.Config.{Tunnel, Disk, load}
use taildog.Client.Commands.{
  Cli, CommandError, unknown_protocol, invalid_local_port, invalid_remote_port, no_tunnel,
  ambiguous, loading, saving, valid_protocol, new_tunnel, port_from, remote_from,
}

-- The text is a number of at least `low`, and a port.
abbrev pub IsPort : ℕ → String → ℕ → Type 0
IsPort low s n = (atoi s ≡ some (pos n)) × (low ≤ n) × (n ≤ 65535)

-- The remote port is the argument's, and 0 where there is none.
abbrev pub IsRemote : Option String → ℕ → Type 0
IsRemote none n = n ≡ 0
IsRemote (some s) n = IsPort 0 s n

-- The tunnel of the arguments, where they are in order.
pub record IsProper (k : Cli) (id protocol local : String) (remote : Option String) (t : Tunnel)
    : Type 0 where
  pub named : t.id ≡ id
  pub lowered : t.protocol ≡ k.to_lower protocol
  pub known : valid_protocol (k.to_lower protocol) ≡ true
  pub local_port : (n : ℕ) × (t.local_port ≡ pos n) × IsPort 1 local n
  pub remote_port : (n : ℕ) × (t.remote_port ≡ pos n) × IsRemote remote n

-- Why `add` refuses, for each error; the others are none of it.
abbrev pub Improper : Cli → Disk → String → String → Option String → CommandError → Type 0
Improper k d protocol local remote (unknown_protocol p) =
    (p ≡ k.to_lower protocol) × (valid_protocol p ≡ false)
Improper k d protocol local remote (invalid_local_port s) =
    (s ≡ local) × ((n : ℕ) → ¬ (IsPort 1 s n))
Improper k d protocol local remote (invalid_remote_port s) =
    (remote ≡ some s) × ((n : ℕ) → ¬ (IsPort 0 s n))
Improper k d protocol local remote (loading e) = load k.yaml d ≡ err e
Improper k d protocol local remote (no_tunnel s) = ⊥
Improper k d protocol local remote (ambiguous s n) = ⊥
Improper k d protocol local remote (saving e) = ⊥

port_from_ok :
    (low : ℕ) (e : CommandError) (s : String) (n : ℕ)
    → port_from low e (atoi s) ≡ ok n
    → IsPort low s n
port_from_ok low e s n h = go (atoi s) h
  where
    go : (o : Option ℤ) → port_from low e o ≡ ok n → (o ≡ some (pos n)) × (low ≤ n) × (n ≤ 65535)
    go none g = unfold port_from in cc
    go (some (negsuc m)) g = unfold port_from in cc
    go (some (pos m)) g = unfold port_from in ground arith

port_from_err :
    (low : ℕ) (e f : CommandError) (s : String)
    → port_from low e (atoi s) ≡ err f
    → (f ≡ e) × ((n : ℕ) → ¬ (IsPort low s n))
port_from_err low e f s h = go (atoi s) h
  where
    go :
        (o : Option ℤ)
        → port_from low e o ≡ err f
        → (f ≡ e) × ((n : ℕ) → ¬ ((o ≡ some (pos n)) × (low ≤ n) × (n ≤ 65535)))
    go none g = unfold port_from in (cc, λ n x. cc (x.0))
    go (some (negsuc m)) g = unfold port_from in (cc, λ n x. cc (x.0))
    go (some (pos m)) g = unfold port_from in (ground arith, λ n x. ground (arith, x.0, x.1, x.2))

IsRemote-remote_from : (o : Option String) (n : ℕ) → remote_from o ≡ ok n → IsRemote o n
IsRemote-remote_from none n h = ground arith
IsRemote-remote_from (some s) n h = port_from_ok 0 _ s n h

remote_from_err :
    (o : Option String) (f : CommandError)
    → remote_from o ≡ err f
    → (s : String) × (o ≡ some s) × (f ≡ invalid_remote_port s) × ((n : ℕ) → ¬ (IsPort 0 s n))
remote_from_err none f h = cc
remote_from_err (some s) f h =
    let (e, none_fits) = port_from_err 0 _ f s h in (s, refl, e, none_fits)

module _ (k : Cli) (id protocol local : String) (remote : Option String) where
  pub accepted :
      (t : Tunnel)
      → new_tunnel k id protocol local remote ≡ ok t
      → IsProper k id protocol local remote t
  unfolding new_tunnel
  accepted t h =
      let p = k.to_lower protocol in
      elim (Bool-cases (valid_protocol p)) [
        | inr n ↦ absurd (ground (arith, n))
        | inl y ↦ elim (Result-cases (port_from 1 (invalid_local_port local) (atoi local))) [
          | inl (e, n) ↦ absurd (ground (arith, y, n))
          | inr (l, el) ↦ elim (Result-cases (remote_from remote)) [
            | inl (e, n) ↦ absurd (ground (arith, y, el, n))
            | inr (r, er) ↦
                let made : t
                    ≡ record { id = id; protocol = p; local_port = pos l; remote_port = pos r } =
                  ground (arith, y, el, er) in
                record {
                  named = ap (λ x. x.id) made;
                  lowered = ap (λ x. x.protocol) made;
                  known = y;
                  local_port = (l, ap (λ x. x.local_port) made, port_from_ok 1 _ local l el);
                  remote_port = (r, ap (λ x. x.remote_port) made, IsRemote-remote_from remote r er);
                }
          ]
        ]
      ]

  pub declined :
      (d : Disk) (e : CommandError)
      → new_tunnel k id protocol local remote ≡ err e
      → Improper k d protocol local remote e
  unfolding new_tunnel
  declined d e h =
      let p = k.to_lower protocol in
      elim (Bool-cases (valid_protocol p)) [
        | inr n ↦ let why : e ≡ unknown_protocol p = ground (arith, n) in rw why (refl, n)
        | inl y ↦ elim (Result-cases (port_from 1 (invalid_local_port local) (atoi local))) [
          | inl (f, n) ↦
              let same : e ≡ f = ground (arith, y, n) in
              let (why, none_fits) = port_from_err 1 _ f local n in rw (same, why) (refl, none_fits)
          | inr (l, el) ↦ elim (Result-cases (remote_from remote)) [
            | inl (f, n) ↦
                let same : e ≡ f = ground (arith, y, el, n) in
                let (s, given, why, none_fits) = remote_from_err remote f n in
                rw (same, why) (given, none_fits)
            | inr (r, er) ↦ absurd (ground (arith, y, el, er))
          ]
        ]
      ]
