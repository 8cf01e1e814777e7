-- ===== src/Registry/Orphans.antt =====
-- A tunnel for a client that has not connected yet belongs to nobody's slice.
use taildog.Prelude.{refl, ap, ◌∙◌, ℕ, ℤ, ◌≡◌, String, string_key, none, some, beq_refl, ok}
use taildog.Dict.{get, get-put}
use taildog.Registry.{
  Tunnel, Registry, tunnel_of, add_tunnel, get_tunnel, get_client, add_client, remove_client,
  client_on_connect,
}
use taildog.Registry.Lifecycle.{added, refused, add_tunnel-AddOutcome}

-- RemoveClient of a client with an empty slice leaves the map of tunnels alone.
tunnels-remove_client :
    (r : Registry) (c name ip : String) (now : ℕ)
    → get c r.clients ≡ some (client_on_connect none c name ip now)
    → (remove_client r c).0.tunnels ≡ r.tunnels
unfolding remove_client
tunnels-remove_client r c name ip now e = rw (e, remove_client) refl

module _ (r : Registry) (id client_id protocol : String) (local_port request : ℤ) (now : ℕ)
    (t : Tunnel) (port : ℕ) (unknown : get_client r client_id ≡ none)
    (done : (add_tunnel r id client_id protocol local_port request now).0 ≡ ok (t, port)) where
  abbrev with_orphan : Registry
  with_orphan = (add_tunnel r id client_id protocol local_port request now).1

  still_unknown : get client_id with_orphan.clients ≡ none
  still_unknown = elim (add_tunnel-AddOutcome r id client_id protocol local_port request now) [
    | added p e o a ↦
        unfold get_client in (a.clients client_id ∙ rw (unknown, beq_refl client_id) refl)
    | refused x e o s ↦ cc (o, done)
  ]

  registered : get id with_orphan.tunnels ≡ some t
  registered = elim (add_tunnel-AddOutcome r id client_id protocol local_port request now) [
    | added p e o a ↦
        unfold get_tunnel in
        (a.tunnels id
          ∙ rw (beq_refl id) (
              let s : tunnel_of id client_id protocol local_port p now ≡ t = cc (o, done) in
              ap some s))
    | refused x e o s ↦ cc (o, done)
  ]

  module _ (name ip : String) (later : ℕ) where
    abbrev connected : Registry
    connected = (add_client with_orphan client_id name ip later).0

    newcomer :
        get client_id connected.clients ≡ some (client_on_connect none client_id name ip later)
    unfolding add_client
    newcomer =
        rw
          (
            still_unknown,
            get-put client_id client_id (client_on_connect none client_id name ip later)
                with_orphan.clients,
            beq_refl client_id,
          )
          refl

    -- A tunnel that was created for an unknown client is registered, but when that client connects
    -- its slice is empty, and removing the client leaves the tunnel in the registry.
    pub orphan_unlisted :
        (get_client connected client_id ≡ some (client_on_connect none client_id name ip later))
        × (get_tunnel connected id ≡ some t)
        × (get_tunnel (remove_client connected client_id).0 id ≡ some t)
    unfolding get_client get_tunnel
    orphan_unlisted = (
      newcomer,
      unfold add_client in registered,
      rw (tunnels-remove_client connected client_id name ip later newcomer)
          (unfold add_client in registered),
    )
