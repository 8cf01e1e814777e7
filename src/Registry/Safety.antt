-- ===== src/Registry/Safety.antt =====
-- The invariant of the registry under every interleaving of its callers.
use taildog.Prelude.{
  refl, ℕ, ℤ, ◌≡◌, ◌⊎◌, inl, inr, String, true, string_key, none, some, [], arith, eq_iff,
  beq-cases, Option-cases, ok, err,
}
use taildog.Dict.{Dict, get, put, get-put}
use taildog.Pool.{PoolError, allocate}
use taildog.Pool.Invariant.{allocate-IsValid}
use taildog.Pool.Contract.{allocate-Takes, allocate_err-Same}
use taildog.Registry.{client_on_connect, Tunnel, Client, add_client, mark_offline}
use taildog.Registry.Ledger.{Exclusive-add, Exclusive-Same}
use taildog.Registry.System.{System, held, reserved, Inv}

module _ (s : System) (v : Inv s) where
  -- A reserved tunnel takes its port; nothing that is registered changes.
  pub reserved-Inv :
      (t : Tunnel) (request : ℤ)
      → held s t.id ≡ none
      → t.active ≡ true
      → (allocate s.pool request).0 ≡ ok t.remote_port
      → Inv (reserved s t (allocate s.pool request).1)
  reserved-Inv t request fresh on e = record {
    exclusive =
        Exclusive-add s.pool (allocate s.pool request).1 (held s)
          (held (reserved s t (allocate s.pool request).1)) t v.exclusive
          (allocate-IsValid s.pool request v.exclusive.valid)
          (allocate-Takes s.pool request t.remote_port v.exclusive.valid e) fresh
          (λ k. ground (arith, get-put t.id k t s.pending, eq_iff t.id k, fresh));
    apart =
        λ k u g. ground (arith, get-put t.id k t s.pending, eq_iff t.id k, fresh, v.apart k u g);
    live = λ k u g. ground (arith, get-put t.id k t s.pending, eq_iff t.id k, v.live k u);
    listed = v.listed;
    once = v.once;
  }

  pub refused-Inv :
      (request : ℤ) (x : PoolError)
      → (allocate s.pool request).0 ≡ err x
      → Inv (record s { registry = record s.registry { pool = (allocate s.pool request).1 } })
  refused-Inv request x e = record {
    exclusive =
        Exclusive-Same s.pool (allocate s.pool request).1 (held s) (held s) v.exclusive
          (allocate-IsValid s.pool request v.exclusive.valid)
          (allocate_err-Same s.pool request x v.exclusive.valid e) (λ k. refl);
    apart = v.apart;
    live = v.live;
    listed = v.listed;
    once = v.once;
  }

  -- Nothing but client records changes, and their slices stay.
  clients-Inv :
      (cs : Dict String Client)
      → ((c : String) (cl : Client)
          → get c cs ≡ some cl
          → (cl.tunnels ≡ [])
            ⊎ ((old : Client) × (get c s.clients ≡ some old) × (cl.tunnels ≡ old.tunnels)))
      → Inv (record s { registry = record s.registry { clients = cs } })
  clients-Inv cs same = record {
    exclusive = v.exclusive;
    apart = v.apart;
    live = v.live;
    listed = λ c cl t g i. elim (same c cl g) [
      | inl e ↦ absurd (rw e at i)
      | inr (old, o, e) ↦ v.listed c old t o (rw e at i)
    ];
    once =
        λ c cl g. elim (same c cl g) [ inl e ↦ rw e tt | inr (old, o, e) ↦ rw e (v.once c old o) ];
  }

  put-Inv :
      (id : String) (nc : Client)
      → ((nc.tunnels ≡ [])
          ⊎ ((old : Client) × (get id s.clients ≡ some old) × (nc.tunnels ≡ old.tunnels)))
      → Inv (record s { registry = record s.registry { clients = put id nc s.clients } })
  put-Inv id nc same = clients-Inv (put id nc s.clients) λ c cl g. elim (beq-cases id c) [
    | inl e ↦
        let n : nc ≡ cl = ground (arith, get-put id c nc s.clients, eq_iff id c) in
        rw (← n, ← e) same
    | inr (ne, f) ↦ inr (cl, ground (arith, get-put id c nc s.clients), refl)
  ]

  pub connect-Inv :
      (id name ip : String) (now : ℕ)
      → Inv (record s { registry = (add_client s.registry id name ip now).0 })
  unfolding add_client
  connect-Inv id name ip now = put-Inv id _ (elim (Option-cases (get id s.clients)) [
    | inl e ↦ inl (rw (e, client_on_connect) refl)
    | inr (c, e) ↦ inr (c, e, rw (e, client_on_connect) refl)
  ])

  pub go_offline-Inv : (id : String) → Inv (record s { registry = mark_offline s.registry id })
  go_offline-Inv id = elim (Option-cases (get id s.clients)) [
    | inl e ↦ unfold mark_offline in rw (e, mark_offline) v
    | inr (c, e) ↦ unfold mark_offline in rw (e, mark_offline) (put-Inv id _ (inr (c, e, refl)))
  ]
