-- ===== src/Api/Tunnels/Deletion.antt =====
-- handleDeleteTunnel over the registry, the event hub and the listeners.
use mathlib.Core.Option
use taildog.Prelude.{
  refl, sym, ap, ◌≡◌, ◌∙◌, inl, inr, String, string_key, none, some, Result, Option-cases,
}
use taildog.Registry.{Registry, RegistryError, Tunnel, remove_tunnel, get_tunnel}
use taildog.Registry.System.{System, Inv}
use taildog.Registry.Lifecycle.{
  Removed, RemoveOutcome, removed, unknown, remove_tunnel-RemoveOutcome,
}
use taildog.Hub.{broadcast, tunnel_deleted}
use taildog.Proxies.{stop}
use taildog.Api.{Packages, Inputs, Server, Request, Response, json_error, json_ok, status}
use taildog.Api.Tunnels.{handle_delete_tunnel, deleted, stop_proxy}
use taildog.Api.Tunnels.Creation.{audit_claims-SameButDb}

module _ (k : Packages) (i : Inputs) (r : Request) where
  -- An unknown tunnel answers 404 and changes nothing. A known one answers 200, is gone from the
  -- registry with its port free, is announced, and its listener is stopped.
  pub data DeleteOutcome (id : String) (s : Server) (res : Response) (s' : Server) : Type 0 where
    missing :
        get_tunnel s.registry id ≡ none
        → res ≡ json_error 404 "tunnel not found"
        → s' ≡ s
        → DeleteOutcome id s res s'
    dropped :
        (t : Tunnel)
        → get_tunnel s.registry id ≡ some t
        → res ≡ json_ok (status "deleted")
        → Removed s.registry s'.registry t
        → s'.hub ≡ broadcast i.picks (tunnel_deleted id) s.hub
        → s'.proxies ≡ Option.map (stop s.machine id) s.proxies
        → DeleteOutcome id s res s'

  stop_proxy_lem :
      (id : String) (s : Server)
      → ((stop_proxy id s).registry ≡ s.registry)
        × ((stop_proxy id s).hub ≡ s.hub)
        × ((stop_proxy id s).proxies ≡ Option.map (stop s.machine id) s.proxies)
  stop_proxy_lem id s = elim (Option-cases s.proxies) [
    | inl n ↦ rw n (refl, refl, refl)
    | inr (p, e) ↦ rw e (refl, refl, refl)
  ]

  deleted-DeleteOutcome :
      (id : String) (s : Server) (t : Tunnel) (res : Result RegistryError (Unit {0})) (g : Registry)
      → get_tunnel s.registry id ≡ some t
      → RemoveOutcome s.registry id res g
      → DeleteOutcome id s
          (deleted k i r id res (record s { registry = g })).0
          (deleted k i r id res (record s { registry = g })).1
  unfolding deleted
  deleted-DeleteOutcome id s t res g known (removed u e answer a) =
      let s1 = record s { registry = g } in
      let (same_registry, same_hub, stopped) = stop_proxy_lem id s1 in
      let announced = record (stop_proxy id s1) {
        hub = broadcast i.picks (tunnel_deleted id) (stop_proxy id s1).hub;
      } in
      let kept = audit_claims-SameButDb k i r "TUNNEL_DELETED" (k.tunnel_detail id) announced in
      rw answer (
        dropped u e refl (rw (kept.registry, same_registry) a)
          (kept.hub ∙ ap (broadcast i.picks (tunnel_deleted id)) same_hub) (kept.proxies ∙ stopped))
  deleted-DeleteOutcome id s t res g known (unknown e answer same) =
      absurd (let bad : some t ≡ none = sym known ∙ e in cc)

  -- With a registry in which the invariant holds, a request to delete an unknown tunnel answers 404
  -- and changes nothing; for a known one it answers 200, the tunnel is gone with its port free, it
  -- is announced, and its listener is stopped.
  pub handle_delete_tunnel-DeleteOutcome :
      (id : String) (s : Server) (v : System)
      → v.registry ≡ s.registry
      → Inv v
      → DeleteOutcome id s (handle_delete_tunnel k i r id s).0 (handle_delete_tunnel k i r id s).1
  unfolding handle_delete_tunnel
  handle_delete_tunnel-DeleteOutcome id s v same inv =
      elim (Option-cases (get_tunnel s.registry id)) [
        | inl n ↦ rw (n, handle_delete_tunnel) (missing n refl refl)
        | inr (t, e) ↦
            rw (e, handle_delete_tunnel)
              (deleted-DeleteOutcome id s t _ _ e (
                let o : RemoveOutcome s.registry id (remove_tunnel s.registry id).0
                    (remove_tunnel s.registry id).1 =
                  rw (← same) (remove_tunnel-RemoveOutcome v id inv) in
                o))
      ]
