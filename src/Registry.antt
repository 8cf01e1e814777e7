-- ===== src/Registry.antt =====
-- relay/internal/tunnel/registry.go: the clients and tunnels that the relay knows, over a port pool.
--
-- The source keeps a tunnel as one object behind two pointers, in `tunnels` and in its owner's slice.
-- Here both hold the record; `Inv.listed` of Registry/System says that they stay equal, so the copy
-- is not seen. The clock and the new identifiers (package uuid) are arguments.
pub mod Ledger
pub mod System
pub mod Drop
pub mod Safety
pub mod Slices
pub mod Publish
pub mod Removal
pub mod Leaving
pub mod Interleaving
pub mod Lifecycle
pub mod Adding
pub mod Orphans
pub mod Samples
use taildog.Prelude.{
  ℕ, ℤ, String, Bool, true, false, not, string_key, ◌==◌, Option, none, some, List, [], ◌∷◌, ◌++◌,
  map, Result, ok, err, if◌then◌else◌, keep,
}
use taildog.Dict.{Dict, get, put, delete, values}
use taildog.Pool.{Pool, PoolError, allocate, release}

pub record Tunnel : Type 0 where
  pub id : String
  pub client_id : String
  pub protocol : String
  pub local_port : ℤ
  pub remote_port : ℕ
  pub created_at : ℕ
  pub active : Bool

pub record Client : Type 0 where
  pub id : String
  pub name : String
  pub ip : String
  pub connected_at : ℕ
  pub online : Bool
  pub tunnels : List Tunnel

pub record Registry : Type 0 where
  pub pool : Pool
  pub clients : Dict String Client
  pub tunnels : Dict String Tunnel

pub data RegistryError : Type 0 where
  allocate_port : PoolError → RegistryError
  tunnel_not_found : String → RegistryError

unfoldable pub new_registry : Pool → Registry
new_registry p = record { pool = p; clients = []; tunnels = [] }

-- The two branches of AddClient: an old client comes back, or a new one is made.
abbrev pub client_on_connect : Option Client → String → String → String → ℕ → Client
client_on_connect (some c) id name ip now = record c { online = true; ip = ip }
client_on_connect none id name ip now = record {
  id = id;
  name = name;
  ip = ip;
  connected_at = now;
  online = true;
  tunnels = [];
}

unfoldable pub add_client : Registry → String → String → String → ℕ → Registry × Client
add_client r id name ip now =
    let c = client_on_connect (get id r.clients) id name ip now in
    (record r { clients = put id c r.clients }, c)

unfoldable pub mark_offline : Registry → String → Registry
mark_offline r id = elim (get id r.clients) [
  | none ↦ r
  | some c ↦ record r { clients = put id (record c { online = false }) r.clients }
]

abbrev pub deactivate : Tunnel → Tunnel
deactivate t = record t { active = false }

-- The loop of RemoveClient over the client's slice.
unfoldable pub drop_tunnels : List Tunnel → Registry → Registry
drop_tunnels [] r = r
drop_tunnels (t ∷ ts) r =
    drop_tunnels ts
      (record r { pool = release r.pool t.remote_port; tunnels = delete t.id r.tunnels })

unfoldable pub remove_client : Registry → String → Registry × List Tunnel
unfolding drop_tunnels
remove_client r id = elim (get id r.clients) [
  | none ↦ (r, [])
  | some c ↦
      let r' = drop_tunnels c.tunnels r in
      (
        record r' { clients = put id (record c { online = false; tunnels = [] }) r'.clients },
        map deactivate c.tunnels,
      )
]

unfoldable pub get_client : Registry → String → Option Client
get_client r id = get id r.clients

-- The order in which Go ranges over a map is not fixed; here it is that of insertion.
unfoldable pub list_clients : Registry → List Client
list_clients r = values r.clients

-- The first half of AddTunnel, before the registry's lock: a port, and the tunnel that will have it.
abbrev pub tunnel_of : String → String → String → ℤ → ℕ → ℕ → Tunnel
tunnel_of id client_id protocol local_port port now = record {
  id = id;
  client_id = client_id;
  protocol = protocol;
  local_port = local_port;
  remote_port = port;
  created_at = now;
  active = true;
}

abbrev pub append_tunnel : Tunnel → Client → Client
append_tunnel t c = record c { tunnels = c.tunnels ++ t ∷ [] }

-- The second half of AddTunnel, under the registry's lock.
unfoldable pub register : Registry → Tunnel → Registry
register r t = elim (get t.client_id r.clients) [
  | none ↦ record r { tunnels = put t.id t r.tunnels }
  | some c ↦ record r {
    tunnels = put t.id t r.tunnels;
    clients = put t.client_id (append_tunnel t c) r.clients;
  }
]

abbrev pub after_allocate :
    Registry
    → String
    → String
    → String
    → ℤ
    → ℕ
    → Result PoolError ℕ × Pool
    → Result RegistryError (Tunnel × ℕ) × Registry
after_allocate r id client_id protocol local_port now (err e, p) =
    (err (allocate_port e), record r { pool = p })
after_allocate r id client_id protocol local_port now (ok port, p) =
    let t = tunnel_of id client_id protocol local_port port now in
    (ok (t, port), register (record r { pool = p }) t)

unfoldable pub add_tunnel :
    Registry → String → String → String → ℤ → ℤ → ℕ → Result RegistryError (Tunnel × ℕ) × Registry
add_tunnel r id client_id protocol local_port remote_port now =
    after_allocate r id client_id protocol local_port now (allocate r.pool remote_port)

-- The owner's slice without the tunnel.
abbrev pub forget_tunnel : String → Client → Client
forget_tunnel id c = record c { tunnels = keep (λ t. not (t.id == id)) c.tunnels }

pub forget_owner : Registry → Tunnel → String → Dict String Client
forget_owner r t id = elim (get t.client_id r.clients) [
  | none ↦ r.clients
  | some c ↦ put t.client_id (forget_tunnel id c) r.clients
]

unfoldable pub remove_tunnel : Registry → String → Result RegistryError (Unit {0}) × Registry
unfolding forget_owner
remove_tunnel r id = elim (get id r.tunnels) [
  | none ↦ (err (tunnel_not_found id), r)
  | some t ↦ (
    ok tt,
    record r {
      pool = release r.pool t.remote_port;
      clients = forget_owner r t id;
      tunnels = delete id r.tunnels;
    },
  )
]

unfoldable pub get_tunnel : Registry → String → Option Tunnel
get_tunnel r id = get id r.tunnels

unfoldable pub list_tunnels : Registry → List Tunnel
list_tunnels r = values r.tunnels
