-- ===== src/Registry/Publish.antt =====
-- The second half of AddTunnel keeps the invariant: who holds which port does not change.
use taildog.Prelude.{
  refl, sym, ap, ◌∙◌, ◌≡◌, ◌⊎◌, inl, inr, String, string_key, none, some, arith, In, eq_iff,
  beq_refl, beq-cases, Option-cases,
}
use taildog.Dict.{Dict, get, put, delete, get-delete, get-put}
use taildog.Registry.{Tunnel, Client, register, append_tunnel}
use taildog.Registry.Ledger.{Exclusive-Same}
use taildog.Registry.System.{System, held, published, Inv, HasDistinctIds}
use taildog.Registry.Slices.{In-append, HasDistinctIds-append}

module _ (s : System) (v : Inv s) (t : Tunnel) (pend : get t.id s.pending ≡ some t) where
  unregistered : get t.id s.tunnels ≡ none
  unregistered = elim (Option-cases (get t.id s.tunnels)) [
    | inl e ↦ e
    | inr (u, e) ↦ cc (v.apart t.id u e, pend)
  ]

  -- The state with the tunnel in the map, and the client records `cs`.
  abbrev with_clients : Dict String Client → System
  with_clients cs = record {
    registry = record s.registry { tunnels = put t.id t s.tunnels; clients = cs };
    pending = delete t.id s.pending;
  }

  held-publish : (cs : Dict String Client) (k : String) → held (with_clients cs) k ≡ held s k
  held-publish cs k = ground (
    arith,
    get-put t.id k t s.tunnels,
    get-delete t.id k s.pending,
    eq_iff t.id k,
    unregistered,
    pend,
  )

  still_listed :
      (u : Tunnel) → get u.id s.tunnels ≡ some u → get u.id (put t.id t s.tunnels) ≡ some u
  still_listed u g = elim (beq-cases t.id u.id) [
    | inl e ↦ cc (unregistered, g, ap (λ k. get k s.tunnels) e)
    | inr (ne, f) ↦ rw (get-put t.id u.id t s.tunnels, f) g
  ]

  with_clients-Inv :
      (cs : Dict String Client)
      → ((c : String) (cl : Client) (u : Tunnel)
          → get c cs ≡ some cl
          → In u cl.tunnels
          → (get u.id (put t.id t s.tunnels) ≡ some u) × (u.client_id ≡ c))
      → ((c : String) (cl : Client) → get c cs ≡ some cl → HasDistinctIds cl.tunnels)
      → Inv (with_clients cs)
  with_clients-Inv cs l o = record {
    exclusive =
        Exclusive-Same s.pool s.pool (held s) (held (with_clients cs)) v.exclusive v.exclusive.valid
          (record { min_kept = refl; max_kept = refl; effect = λ x. refl }) (held-publish cs);
    apart = λ k u g.
        ground (arith, get-put t.id k t s.tunnels, get-delete t.id k s.pending, v.apart k u);
    live = λ k u g. v.live k u (sym (held-publish cs k) ∙ g);
    listed = l;
    once = o;
  }

  old_listed :
      (c : String) (cl : Client) (u : Tunnel)
      → get c s.clients ≡ some cl
      → In u cl.tunnels
      → (get u.id (put t.id t s.tunnels) ≡ some u) × (u.client_id ≡ c)
  old_listed c cl u g i = (still_listed u (v.listed c cl u g i).0, (v.listed c cl u g i).1)

  -- The owner's slice with the tunnel at its end.
  appended_listed :
      (old : Client) (u : Tunnel)
      → get t.client_id s.clients ≡ some old
      → In u (append_tunnel t old).tunnels
      → (get u.id (put t.id t s.tunnels) ≡ some u) × (u.client_id ≡ t.client_id)
  appended_listed old u g i = elim (In-append u t old.tunnels i) [
    | inl j ↦ old_listed t.client_id old u g j
    | inr e ↦ rw e (rw (get-put t.id t.id t s.tunnels, beq_refl t.id) refl, refl)
  ]

  appended_once :
      (old : Client)
      → get t.client_id s.clients ≡ some old
      → HasDistinctIds (append_tunnel t old).tunnels
  appended_once old g =
      HasDistinctIds-append t old.tunnels (v.once t.client_id old g)
        λ u i e. cc (unregistered, (v.listed t.client_id old u g i).0, ap (λ k. get k s.tunnels) e)

  -- The record under a key after the owner's was replaced.
  put_cases :
      (nc : Client) (c : String) (cl : Client)
      → get c (put t.client_id nc s.clients) ≡ some cl
      → ((t.client_id ≡ c) × (cl ≡ nc)) ⊎ (get c s.clients ≡ some cl)
  put_cases nc c cl g = elim (beq-cases t.client_id c) [
    | inl e ↦ inl (e, ground (arith, get-put t.client_id c nc s.clients, eq_iff t.client_id c))
    | inr (ne, f) ↦ inr (ground (arith, get-put t.client_id c nc s.clients))
  ]

  owned-Inv :
      (old : Client)
      → get t.client_id s.clients ≡ some old
      → Inv (with_clients (put t.client_id (append_tunnel t old) s.clients))
  owned-Inv old g =
      with_clients-Inv (put t.client_id (append_tunnel t old) s.clients)
        (λ c cl u h i. elim (put_cases (append_tunnel t old) c cl h) [
          | inl (e, n) ↦ rw (← e) (appended_listed old u g (rw n at i))
          | inr o ↦ old_listed c cl u o i
        ])
        (λ c cl h. elim (put_cases (append_tunnel t old) c cl h) [
          | inl (e, n) ↦ rw n (appended_once old g)
          | inr o ↦ v.once c cl o
        ])

  pub published-Inv : Inv (published s t)
  published-Inv = elim (Option-cases (get t.client_id s.clients)) [
    | inl e ↦ unfold register in rw (e, register) (with_clients-Inv s.clients old_listed v.once)
    | inr (c, e) ↦ unfold register in rw (e, register) (owned-Inv c e)
  ]
