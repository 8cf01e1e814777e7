-- ===== src/Api/Tunnels/Creation.antt =====
-- handleCreateTunnel over the registry, the event hub and the listeners.
use mathlib.Core.Option
use taildog.Prelude.{
  refl, sym, ap, ℕ, ◌≡◌, ◌∙◌, inl, inr, String, Bool, true, false, ◌||◌, string_key, ◌==◌, some,
  Result, ok, err, beq_refl, Option-cases, Bool-cases,
}
use taildog.Pool.{PoolError, allocate}
use taildog.Registry.{Registry, RegistryError, Tunnel, tunnel_of, allocate_port, get_tunnel}
use taildog.Registry.Lifecycle.{Added, AddOutcome, added, refused, add_tunnel-AddOutcome}
use taildog.Hub.{broadcast, tunnel_created}
use taildog.Proxies.{ProxyStore, start, start_on}
use taildog.Api.{
  Packages, Inputs, Server, Request, Response, json_error, json_created, audit_claims, audit_as,
  tunnel,
}
use taildog.Api.Tunnels.{CreateBody, is_zero, handle_create_tunnel, created, start_proxy}

-- Everything but the database is as in `s`.
pub record SameButDb (s s' : Server) : Type 0 where
  pub registry : s'.registry ≡ s.registry
  pub hub : s'.hub ≡ s.hub
  pub proxies : s'.proxies ≡ s.proxies

abbrev pub is_incomplete : CreateBody → Bool
is_incomplete b = b.client_id == "" || (b.protocol == "" || is_zero b.local_port)

module _ (k : Packages) (i : Inputs) (r : Request) where
  pub audit_claims-SameButDb :
      (event detail : String) (s : Server) → SameButDb s (audit_claims k i r event detail s)
  unfolding audit_as
  audit_claims-SameButDb event detail s = elim (Option-cases r.claims) [
    | inl n ↦ rw n (record { registry = refl; hub = refl; proxies = refl })
    | inr (c, e) ↦ rw e (record { registry = refl; hub = refl; proxies = refl })
  ]

  -- A request with a missing field answers 400, one that gets no port 500, and one that gets a
  -- port 201 with its tunnel, which is entered, announced and given a listener if there is a store of them.
  pub data CreateOutcome (b : CreateBody) (s : Server) (res : Response) (s' : Server) : Type 0 where
    incomplete :
        is_incomplete b ≡ true
        → res ≡ json_error 400 "clientID, protocol and localPort are required"
        → s' ≡ s
        → CreateOutcome b s res s'
    no_port :
        (e : PoolError)
        → is_incomplete b ≡ false
        → (allocate s.registry.pool b.remote_port).0 ≡ err e
        → res ≡ json_error 500 (k.error_text (allocate_port e))
        → s' ≡ record s {
          registry = record s.registry { pool = (allocate s.registry.pool b.remote_port).1 };
        }
        → CreateOutcome b s res s'
    opened :
        (t : Tunnel)
        → is_incomplete b ≡ false
        → (allocate s.registry.pool b.remote_port).0 ≡ ok t.remote_port
        → (t ≡ tunnel_of i.new_id b.client_id b.protocol b.local_port t.remote_port i.now)
        → res ≡ json_created (tunnel t)
        → Added s.registry s'.registry (allocate s.registry.pool b.remote_port).1 t
        → s'.hub ≡ broadcast i.picks (tunnel_created t) s.hub
        → s'.proxies
          ≡ Option.map
              (λ p. (start s.machine i.port_opens t.protocol t.remote_port t.id p).1)
              s.proxies
        → CreateOutcome b s res s'

  start_proxy_lem :
      (t : Tunnel) (s : Server)
      → ((start_proxy i t s).registry ≡ s.registry)
        × ((start_proxy i t s).hub ≡ s.hub)
        × ((start_proxy i t s).proxies
            ≡ Option.map
                (λ p. (start s.machine i.port_opens t.protocol t.remote_port t.id p).1)
                s.proxies)
  start_proxy_lem t s = elim (Option-cases s.proxies) [
    | inl n ↦ rw n (refl, refl, refl)
    | inr (p, e) ↦ rw e (refl, refl, refl)
  ]

  created-CreateOutcome :
      (b : CreateBody) (s : Server) (res : Result RegistryError (Tunnel × ℕ)) (g : Registry)
      → is_incomplete b ≡ false
      → AddOutcome s.registry i.new_id b.client_id b.protocol b.local_port b.remote_port i.now res g
      → CreateOutcome b s
          (created k i r res (record s { registry = g })).0
          (created k i r res (record s { registry = g })).1
  unfolding created
  created-CreateOutcome b s res g f (added port e answer a) =
      let t = tunnel_of i.new_id b.client_id b.protocol b.local_port port i.now in
      let announced = record s { registry = g; hub = broadcast i.picks (tunnel_created t) s.hub } in
      let kept =
        audit_claims-SameButDb "TUNNEL_CREATED" (k.port_detail port) (start_proxy i t announced) in
      let (same_registry, same_hub, listening) = start_proxy_lem t announced in
      rw answer (
        opened t f e refl refl (rw (kept.registry, same_registry) a) (kept.hub ∙ same_hub)
          (kept.proxies ∙ listening))
  created-CreateOutcome b s res g f (refused x e answer same) =
      rw answer (no_port x f e refl (rw same refl))

  -- A request to create a tunnel that lacks a field answers 400 and changes nothing; one that gets
  -- no port answers 500; one that gets a port answers 201 with its tunnel, which is entered in the
  -- registry, announced and handed to the listeners.
  pub handle_create_tunnel-CreateOutcome :
      (b : CreateBody) (s : Server)
      → CreateOutcome b s
          (handle_create_tunnel k i r (some b) s).0
          (handle_create_tunnel k i r (some b) s).1
  unfolding handle_create_tunnel
  handle_create_tunnel-CreateOutcome b s = elim (Bool-cases (is_incomplete b)) [
    | inl t ↦ rw t (incomplete t refl refl)
    | inr f ↦ rw f (
        created-CreateOutcome b s _ _ f (
          add_tunnel-AddOutcome s.registry i.new_id b.client_id b.protocol b.local_port
            b.remote_port i.now))
  ]

  -- Where the system does not let the port be opened, a complete request that gets a port is
  -- answered 201 all the same: the tunnel is registered as active, and no listener is added.
  pub created_without_listener :
      (b : CreateBody) (s : Server) (p : ProxyStore) (port : ℕ)
      → i.port_opens ≡ false
      → s.proxies ≡ some p
      → is_incomplete b ≡ false
      → (allocate s.registry.pool b.remote_port).0 ≡ ok port
      → let t = tunnel_of i.new_id b.client_id b.protocol b.local_port port i.now in
        ((handle_create_tunnel k i r (some b) s).0 ≡ json_created (tunnel t))
        × (get_tunnel (handle_create_tunnel k i r (some b) s).1.registry i.new_id ≡ some t)
        × ((handle_create_tunnel k i r (some b) s).1.proxies ≡ some p)
  unfolding start start_on
  created_without_listener b s p port shut store complete e =
      go (handle_create_tunnel k i r (some b) s).0 (handle_create_tunnel k i r (some b) s).1
        (handle_create_tunnel-CreateOutcome b s)
    where
      go :
          (res : Response) (s' : Server)
          → CreateOutcome b s res s'
          → let t = tunnel_of i.new_id b.client_id b.protocol b.local_port port i.now in
            (res ≡ json_created (tunnel t))
            × (get_tunnel s'.registry i.new_id ≡ some t)
            × (s'.proxies ≡ some p)
      go res s' (incomplete t answer same) =
          absurd (let bad : true ≡ false = sym t ∙ complete in cc)
      go res s' (no_port x f none_free answer same) =
          absurd (let bad : err x ≡ ok port = sym none_free ∙ e in cc)
      go res s' (opened t f got made answer a hub proxies) =
          let at_port : t.remote_port ≡ port =
            cc (let q : ok t.remote_port ≡ ok port = sym got ∙ e in q) in
          let made' : t ≡ tunnel_of i.new_id b.client_id b.protocol b.local_port port i.now =
            made
            ∙ ap (λ x. tunnel_of i.new_id b.client_id b.protocol b.local_port x i.now) at_port in
          (
            answer ∙ ap (λ x. json_created (tunnel x)) made',
            a.tunnels i.new_id ∙ rw (made', beq_refl i.new_id) refl,
            proxies ∙ rw (store, shut) refl,
          )
