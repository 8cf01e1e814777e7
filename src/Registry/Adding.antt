-- ===== src/Registry/Adding.antt =====
-- What AddTunnel of the registry does with the port that it is given and without one.
use mathlib.Core.Option
use taildog.Prelude.{
  refl, ap, ◌∙◌, ℕ, ℤ, pos, ◌≡◌, ◌⊎◌, inl, inr, String, true, false, string_key, nat_key, ◌==◌,
  some, [], ◌∷◌, ◌++◌, if◌then◌else◌, Result, ok, err,
}
use taildog.Pool.{Pool, PoolError, in_use, no_free_ports, is_allocated, allocate}
use taildog.Pool.Invariant.{IsValid}
use taildog.Pool.Scan.{Takes, Same}
use taildog.Pool.Contract.{
  IsAuto, AllTaken, as_requested, conflict, from_pool, exhausted, allocate-Outcome,
}
use taildog.Registry.{
  Tunnel, Client, Registry, RegistryError, allocate_port, tunnel_of, add_tunnel, get_tunnel,
  get_client,
}
use taildog.Registry.Lifecycle.{AddOutcome, added, refused, add_tunnel-AddOutcome}

-- A tunnel with the caller's values, active, at a port.
abbrev pub NewTunnel : String → String → String → ℤ → ℕ → ℕ → Tunnel → Type 0
NewTunnel id client_id protocol local_port port now t =
    (t.id ≡ id)
    × (t.client_id ≡ client_id)
    × (t.protocol ≡ protocol)
    × (t.local_port ≡ local_port)
    × (t.remote_port ≡ port)
    × (t.created_at ≡ now)
    × (t.active ≡ true)

-- `r'` has the clients, the tunnels and the ports of `r`, and the same range.
pub record Untouched (r r' : Registry) : Type 0 where
  pub ports : (x : ℕ) → is_allocated r'.pool x ≡ is_allocated r.pool x
  pub range : (r'.pool.min ≡ r.pool.min) × (r'.pool.max ≡ r.pool.max)
  pub clients : r'.clients ≡ r.clients
  pub tunnels : r'.tunnels ≡ r.tunnels

-- `r'` is `r` with the port taken that was free, and the tunnel in the map and last in its owner's
-- slice.
pub record Entered (r r' : Registry) (t : Tunnel) : Type 0 where
  pub free : is_allocated r.pool t.remote_port ≡ false
  pub ports :
      (x : ℕ)
      → is_allocated r'.pool x ≡ (if t.remote_port == x then true else is_allocated r.pool x)
  pub range : (r'.pool.min ≡ r.pool.min) × (r'.pool.max ≡ r.pool.max)
  pub tunnels : (k : String) → get_tunnel r' k ≡ (if t.id == k then some t else get_tunnel r k)
  pub clients :
      (k : String)
      → get_client r' k ≡ (
          if t.client_id == k
          then Option.map {A = Client}
              (λ c. record c { tunnels = c.tunnels ++ t ∷ [] })
              (get_client r k)
          else get_client r k)

-- The endings of AddTunnel.
pub data AddResult (r : Registry) (id client_id protocol : String) (local_port request : ℤ)
    (now : ℕ) (res : Result RegistryError (Tunnel × ℕ)) (r' : Registry) : Type 0 where
  entered :
      (t : Tunnel) (port : ℕ)
      → NewTunnel id client_id protocol local_port port now t
      → (request ≡ pos port) ⊎ IsAuto r.pool request
      → res ≡ ok (t, port)
      → Entered r r' t
      → AddResult r id client_id protocol local_port request now res r'
  clash :
      (c : ℕ)
      → request ≡ pos c
      → is_allocated r.pool c ≡ true
      → res ≡ err (allocate_port (in_use c))
      → Untouched r r'
      → AddResult r id client_id protocol local_port request now res r'
  used_up :
      IsAuto r.pool request
      → AllTaken r.pool
      → res ≡ err (allocate_port no_free_ports)
      → Untouched r r'
      → AddResult r id client_id protocol local_port request now res r'

module _ (r : Registry) (id client_id protocol : String) (local_port request : ℤ) (now : ℕ) where
  abbrev step : Result RegistryError (Tunnel × ℕ) × Registry
  step = add_tunnel r id client_id protocol local_port request now

  abbrev Ends : Type 0
  Ends = AddResult r id client_id protocol local_port request now step.0 step.1

  abbrev Cases : Type 0
  Cases = AddOutcome r id client_id protocol local_port request now step.0 step.1

  Untouched-Same :
      (q : Pool) (r' : Registry) → Same r.pool q → r' ≡ record r { pool = q } → Untouched r r'
  Untouched-Same q r' s e = rw e (record {
    ports = s.effect;
    range = (s.min_kept, s.max_kept);
    clients = refl;
    tunnels = refl;
  })

  with_port :
      (c : ℕ)
      → (request ≡ pos c) ⊎ IsAuto r.pool request
      → (allocate r.pool request).0 ≡ ok c
      → Takes r.pool c (allocate r.pool request).1
      → Cases
      → Ends
  with_port c asked given t (refused e no_port answer same) = cc
  with_port c asked given t (added port got answer a) =
      let same : port ≡ c = cc in
      let new = tunnel_of id client_id protocol local_port port now in
      let t' : Takes r.pool port (allocate r.pool request).1 = rw same t in
      entered new port (refl, refl, refl, refl, refl, refl, refl) (rw same asked) answer
        (record {
          free = t'.free;
          ports = λ x. ap (λ q. is_allocated q x) a.pool ∙ t'.effect x;
          range = (ap (λ q. q.min) a.pool ∙ t'.min_kept, ap (λ q. q.max) a.pool ∙ t'.max_kept);
          tunnels = a.tunnels;
          clients = a.clients;
        })

  refusal :
      (x : PoolError)
      → (allocate r.pool request).0 ≡ err x
      → Same r.pool (allocate r.pool request).1
      → Cases
      → (step.0 ≡ err (allocate_port x)) × Untouched r step.1
  refusal x failed s (added port got answer a) = cc
  refusal x failed s (refused e no_port answer same) =
      let this : e ≡ x = cc in
      (answer ∙ ap (λ y. err (allocate_port y)) this, Untouched-Same _ step.1 s same)

  -- Over a valid pool AddTunnel ends in one of three ways: with the requested port, or one from the
  -- pool, that was free, an active tunnel with the caller's values is entered in the map and at the
  -- end of its owner's slice, and that port alone is taken; for a requested port that is taken, or
  -- where all are, it is an error and no client, tunnel or port changes.
  pub add_tunnel-AddResult : IsValid r.pool → Ends
  add_tunnel-AddResult v =
      let cases = add_tunnel-AddOutcome r id client_id protocol local_port request now in
      elim (allocate-Outcome r.pool request v) [
        | as_requested c asked z o t ↦ with_port c (inl asked) o t cases
        | from_pool c auto o t near ↦ with_port c (inr auto) o t cases
        | conflict c asked z taken o q ↦
            let (answer, same) =
              refusal (in_use c) o
                (rw q (record { min_kept = refl; max_kept = refl; effect = λ x. refl })) cases in
            clash c asked taken answer same
        | exhausted auto o s full ↦
            let (answer, same) = refusal no_free_ports o s cases in used_up auto full answer same
      ]
