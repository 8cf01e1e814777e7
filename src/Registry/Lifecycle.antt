-- ===== src/Registry/Lifecycle.antt =====
-- What one method of the registry does to the tunnels and clients, on every branch.
use mathlib.Core.Option
use taildog.Prelude.{
  refl, ℕ, ℤ, ◌≡◌, ◌⊎◌, inl, inr, String, false, string_key, ◌==◌, none, some, arith, if◌then◌else◌,
  beq_refl, beq-cases, Option-cases, Result, ok, err, nat_key,
}
use taildog.Dict.{Dict, get, put, get-delete, get-put}
use taildog.Pool.{Pool, PoolError, is_allocated, allocate}
use taildog.Pool.Invariant.{is_allocated-release}
use taildog.Registry.{
  Tunnel, Client, Registry, RegistryError, allocate_port, tunnel_not_found, tunnel_of, register,
  append_tunnel, add_tunnel, get_tunnel, get_client, remove_tunnel, forget_tunnel, forget_owner,
}
use taildog.Registry.System.{System, Inv}

tunnels-register :
    (r : Registry) (t : Tunnel) (k : String)
    → get k (register r t).tunnels ≡ (if t.id == k then some t else get k r.tunnels)
tunnels-register r t k = elim (Option-cases (get t.client_id r.clients)) [
  | inl e ↦ unfold register in rw (e, register) (get-put t.id k t r.tunnels)
  | inr (c, e) ↦ unfold register in rw (e, register) (get-put t.id k t r.tunnels)
]

-- Reading a map whose entry at `c` was replaced, if there was one.
replaced :
    (c k : String) (f : Client → Client) (m m' : Dict String Client)
    → ((get c m ≡ none) × (m' ≡ m)) ⊎ ((x : Client) × (get c m ≡ some x) × (m' ≡ put c (f x) m))
    → get k m' ≡ (if c == k then Option.map f (get k m) else get k m)
replaced c k f m m' (inl (n, e)) = elim (beq-cases c k) [
  | inl same ↦ rw (e, ← same, n, beq_refl c) refl
  | inr (ne, no_match) ↦ rw (e, no_match) refl
]
replaced c k f m m' (inr (x, h, e)) = elim (beq-cases c k) [
  | inl same ↦ rw (e, ← same, get-put c c (f x) m, beq_refl c, h) refl
  | inr (ne, no_match) ↦ rw (e, get-put c k (f x) m, no_match) refl
]

clients-register :
    (r : Registry) (t : Tunnel) (k : String)
    → get k (register r t).clients ≡ (
        if t.client_id == k
        then Option.map (append_tunnel t) (get k r.clients)
        else get k r.clients)
clients-register r t k =
    replaced t.client_id k (append_tunnel t) r.clients (register r t).clients
      (elim (Option-cases (get t.client_id r.clients)) [
        | inl e ↦ inl (e, unfold register in rw (e, register) refl)
        | inr (x, e) ↦ inr (x, e, unfold register in rw (e, register) refl)
      ])

clients-forget_owner :
    (r : Registry) (t : Tunnel) (id k : String)
    → get k (forget_owner r t id) ≡ (
        if t.client_id == k
        then Option.map (forget_tunnel id) (get k r.clients)
        else get k r.clients)
clients-forget_owner r t id k =
    replaced t.client_id k (forget_tunnel id) r.clients (forget_owner r t id)
      (elim (Option-cases (get t.client_id r.clients)) [
        | inl e ↦ inl (e, unfold forget_owner in rw (e, forget_owner) refl)
        | inr (x, e) ↦ inr (x, e, unfold forget_owner in rw (e, forget_owner) refl)
      ])

pool-register : (r : Registry) (t : Tunnel) → (register r t).pool ≡ r.pool
unfolding register
pool-register r t = ground arith

-- `r'` is `r` with the tunnel `t` in the map and at the end of its owner's slice, and the pool `q`.
pub record Added (r r' : Registry) (q : Pool) (t : Tunnel) : Type 0 where
  pub pool : r'.pool ≡ q
  pub tunnels : (k : String) → get_tunnel r' k ≡ (if t.id == k then some t else get_tunnel r k)
  pub clients :
      (k : String)
      → get_client r' k ≡ (
          if t.client_id == k
          then Option.map (append_tunnel t) (get_client r k)
          else get_client r k)

-- Both branches of AddTunnel, over what Allocate answers and leaves.
pub data AddOutcome (r : Registry) (id client_id protocol : String) (local_port request : ℤ)
    (now : ℕ) (res : Result RegistryError (Tunnel × ℕ)) (r' : Registry) : Type 0 where
  added :
      (port : ℕ)
      → (allocate r.pool request).0 ≡ ok port
      → res ≡ ok (tunnel_of id client_id protocol local_port port now, port)
      → Added r r' (allocate r.pool request).1 (tunnel_of id client_id protocol local_port port now)
      → AddOutcome r id client_id protocol local_port request now res r'
  refused :
      (e : PoolError)
      → (allocate r.pool request).0 ≡ err e
      → res ≡ err (allocate_port e)
      → r' ≡ record r { pool = (allocate r.pool request).1 }
      → AddOutcome r id client_id protocol local_port request now res r'

-- AddTunnel with a port from the pool enters a tunnel with the caller's values in the map and at the
-- end of its owner's slice; without a port it is an error, and the pool is what Allocate left.
pub add_tunnel-AddOutcome :
    (r : Registry) (id client_id protocol : String) (local_port request : ℤ) (now : ℕ)
    → AddOutcome r id client_id protocol local_port request now
        (add_tunnel r id client_id protocol local_port request now).0
        (add_tunnel r id client_id protocol local_port request now).1
unfolding add_tunnel
add_tunnel-AddOutcome r id c p lp rq now = go (allocate r.pool rq).0 refl
  where
    go :
        (a : Result PoolError ℕ)
        → (allocate r.pool rq).0 ≡ a
        → AddOutcome r id c p lp rq now
            (add_tunnel r id c p lp rq now).0
            (add_tunnel r id c p lp rq now).1
    go (ok port) e =
        let t = tunnel_of id c p lp port now in
        let q = (allocate r.pool rq).1 in
        rw (e, add_tunnel)
          (added port e refl (record {
            pool = pool-register (record r { pool = q }) t;
            tunnels = λ k. unfold get_tunnel in tunnels-register (record r { pool = q }) t k;
            clients = λ k. unfold get_client in clients-register (record r { pool = q }) t k;
          }))
    go (err x) e = rw (e, add_tunnel) (refused x e refl refl)

-- `r'` is `r` without the tunnel `t`: it is gone from the map and from its owner's slice, and its
-- port is free.
pub record Removed (r r' : Registry) (t : Tunnel) : Type 0 where
  pub port :
      (x : ℕ)
      → is_allocated r'.pool x ≡ (if t.remote_port == x then false else is_allocated r.pool x)
  pub tunnels : (k : String) → get_tunnel r' k ≡ (if t.id == k then none else get_tunnel r k)
  pub clients :
      (k : String)
      → get_client r' k ≡ (
          if t.client_id == k
          then Option.map (forget_tunnel t.id) (get_client r k)
          else get_client r k)

-- Both branches of RemoveTunnel: a known tunnel is removed; an unknown id is an error that
-- changes nothing.
pub data RemoveOutcome (r : Registry) (id : String) (res : Result RegistryError (Unit {0}))
    (r' : Registry) : Type 0 where
  removed :
      (t : Tunnel)
      → get_tunnel r id ≡ some t
      → res ≡ ok tt
      → Removed r r' t
      → RemoveOutcome r id res r'
  unknown :
      get_tunnel r id ≡ none → res ≡ err (tunnel_not_found id) → r' ≡ r → RemoveOutcome r id res r'

-- In a state where the invariant holds, RemoveTunnel of a known tunnel takes it from the map and
-- from its owner's slice and frees its port; for an unknown id it is an error that changes nothing.
pub remove_tunnel-RemoveOutcome :
    (s : System) (id : String)
    → Inv s
    → RemoveOutcome s.registry id (remove_tunnel s.registry id).0 (remove_tunnel s.registry id).1
remove_tunnel-RemoveOutcome s id v = elim (Option-cases (get id s.tunnels)) [
  | inl e ↦
      unknown (unfold get_tunnel in e) (unfold remove_tunnel in rw (e, remove_tunnel) refl)
        (unfold remove_tunnel in rw (e, remove_tunnel) refl)
  | inr (t, e) ↦
      let t_id : t.id ≡ id = v.exclusive.keyed id t (rw e refl) in
      removed t (unfold get_tunnel in e) (unfold remove_tunnel in rw (e, remove_tunnel) refl)
        (record {
          port = λ x.
              unfold remove_tunnel in
              rw (e, remove_tunnel) (is_allocated-release s.pool t.remote_port x);
          tunnels = λ k.
              unfold remove_tunnel get_tunnel in
              rw (e, remove_tunnel, t_id) (get-delete id k s.tunnels);
          clients = λ k.
              unfold remove_tunnel get_client in
              rw (e, remove_tunnel, t_id) (clients-forget_owner s.registry t id k);
        })
]
