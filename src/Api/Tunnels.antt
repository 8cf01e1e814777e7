-- ===== src/Api/Tunnels.antt =====
-- The handlers over clients and tunnels of relay/internal/api/handlers.go.
pub mod Creation
pub mod Deletion
use taildog.Prelude.{
  ℕ, ℤ, pos, negsuc, ◌+◌, ◌-◌, String, Bool, true, false, ◌||◌, nat_key, string_key, ◌==◌, Option,
  none, some, List, [], ◌∷◌, Result, ok, err, if◌then◌else◌, length, keep,
}
use taildog.Registry.{
  Registry, Tunnel, Client, RegistryError, list_clients, get_client, add_tunnel, get_tunnel,
  remove_tunnel,
}
use taildog.Hub.{Hub, broadcast, count, tunnel_created, tunnel_deleted}
use taildog.Proxies.{ProxyStore, start, stop}
use taildog.Api.{
  Packages, Inputs, Server, Request, Response, Body, json_error, json_ok, json_created, or_else,
  audit_claims, clients, tunnels, tunnel, status, info, debug, error,
}

pub record CreateBody : Type 0 where
  pub client_id : String
  pub protocol : String
  pub local_port : ℤ
  pub remote_port : ℤ

unfoldable pub handle_list_clients : Server → Response × Server
handle_list_clients s = (json_ok (clients (list_clients s.registry)), s)

-- A nil slice is answered as an empty one.
unfoldable pub handle_client_tunnels : String → Server → Response × Server
handle_client_tunnels id s = elim (get_client s.registry id) [
  | none ↦ (json_error 404 "client not found", s)
  | some c ↦ (json_ok (tunnels c.tunnels), s)
]

abbrev pub is_zero : ℤ → Bool
is_zero (pos n) = n == 0
is_zero (negsuc n) = false

-- StartTunnelProxy, where it is set; a failure is logged only.
abbrev pub start_proxy : Inputs → Tunnel → Server → Server
start_proxy i t s = elim s.proxies [
  | none ↦ s
  | some p ↦ record s {
    proxies = some (start s.machine i.port_opens t.protocol t.remote_port t.id p).1;
  }
]

abbrev pub stop_proxy : String → Server → Server
stop_proxy id s = elim s.proxies [
  | none ↦ s
  | some p ↦ record s { proxies = some (stop s.machine id p) }
]

module _ (k : Packages) (i : Inputs) (r : Request) where
  unfoldable pub created : Result RegistryError (Tunnel × ℕ) → Server → Response × Server
  created (err e) s = (json_error 500 (k.error_text e), s)
  created (ok (t, assigned)) s =
      let announced = record s { hub = broadcast i.picks (tunnel_created t) s.hub } in
      (
        json_created (tunnel t),
        audit_claims k i r "TUNNEL_CREATED" (k.port_detail assigned) (start_proxy i t announced),
      )

  unfoldable pub handle_create_tunnel : Option CreateBody → Server → Response × Server
  unfolding created
  handle_create_tunnel none s = (json_error 400 "invalid body", s)
  handle_create_tunnel (some b) s =
      let call =
        add_tunnel s.registry i.new_id b.client_id b.protocol b.local_port b.remote_port i.now in
      if b.client_id == "" || (b.protocol == "" || is_zero b.local_port)
      then (json_error 400 "clientID, protocol and localPort are required", s)
      else created call.0 (record s { registry = call.1 })

  unfoldable pub deleted : String → Result RegistryError (Unit {0}) → Server → Response × Server
  deleted id (err e) s = (json_error 500 (k.error_text e), s)
  deleted id (ok _) s =
      let stopped = stop_proxy id s in
      let announced = record stopped { hub = broadcast i.picks (tunnel_deleted id) stopped.hub } in
      (
        json_ok (status "deleted"),
        audit_claims k i r "TUNNEL_DELETED" (k.tunnel_detail id) announced,
      )

  unfoldable pub handle_delete_tunnel : String → Server → Response × Server
  unfolding deleted
  handle_delete_tunnel id s = elim (get_tunnel s.registry id) [
    | none ↦ (json_error 404 "tunnel not found", s)
    | some _ ↦
        let call = remove_tunnel s.registry id in deleted id call.0 (record s { registry = call.1 })
  ]

  -- The name that the client used for the relay, without a port.
  unfoldable pub server_name : String
  server_name =
      let name = if r.host == "" then "renode-relay" else r.host in
      or_else (k.split_host_port name) name

  unfoldable pub handle_server_info : Server → Response × Server
  unfolding server_name
  handle_server_info s = (
    json_ok (
        info "0.1.0" (i.now - s.start_time)
          (length (keep (λ c. c.online) (list_clients s.registry))) server_name i.outbound_ip),
    s,
  )

unfoldable pub handle_debug : Server → Response × Server
handle_debug s =
    let all = list_clients s.registry in (json_ok (debug (length all) (count s.hub) all), s)
