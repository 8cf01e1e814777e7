-- ===== src/Control.antt =====
-- relay/server/control.go and the store of sessions of relay/server/proxy.go: a daemon connects, sends
-- frames and disconnects, and connections from outside are bridged to it.
--
-- A session is an object that the goroutine of its control connection, the store and the bridges
-- share, so there is a heap of sessions; the store holds addresses. A step is one round of a loop or
-- one call; the clock and the identifiers are arguments, and so is whether a frame can be written.
pub mod Bridges
pub mod Lifecycle
pub mod Samples
use taildog.Prelude.{
  ℕ, ℤ, String, Bool, true, false, not, ◌||◌, string_key, nat_key, ◌==◌, Option, none, some, List,
  [], ◌∷◌, Result, ok, err, if◌then◌else◌,
}
use taildog.Dict.{Dict, get, put, delete}
use taildog.Db.{Db, add_audit_log}
use taildog.Registry.{Registry, Client, add_client, mark_offline}
use taildog.Hub.{Hub, broadcast, client_connected, client_disconnected}
use taildog.Sessions.{
  ClientSession, Outside, Frame, welcome, pong, new_client_session, send, close_conn,
  write_to_external, close_all_external,
}

-- The relay's state as the goroutines of server see it; `store` is `sessions`.
pub record Relay : Type 0 where
  pub heap : Dict ℕ ClientSession
  pub store : Dict String ℕ
  pub registry : Registry
  pub hub : Hub
  pub db : Db
  pub outside : Outside

unfoldable pub set : String → ℕ → Relay → Relay
set client_id p s = record s { store = put client_id p s.store }

unfoldable pub del : String → Relay → Relay
del client_id s = record s { store = delete client_id s.store }

unfoldable pub lookup : String → Relay → Option ℕ
lookup client_id s = get client_id s.store

-- To change the session at an address.
abbrev pub at : ℕ → (ClientSession → Outside → ClientSession × Outside) → Relay → Relay
at p f s = elim (get p s.heap) [
  | none ↦ s
  | some x ↦ record s { heap = put p (f x s.outside).0 s.heap; outside = (f x s.outside).1 }
]

pub record HelloMsg : Type 0 where
  pub kind : String
  pub client_id : String
  pub name : String

-- What a goroutine takes from outside in one step.
pub record Now : Type 0 where
  pub time : ℕ
  pub audit_id : String
  pub picks : ℕ → Bool
  pub writes : Bool

-- The handshake. A hello that cannot be decoded is `none`; `false` is the early return.
unfoldable pub accept_hello : Now → ℕ → String → Option HelloMsg → Relay → Bool × Relay
unfolding new_client_session send set
accept_hello i p ip none s = (false, s)
accept_hello i p ip (some m) s =
    let x = send i.writes welcome (new_client_session m.client_id) in
    let greeted = record s { heap = put p x s.heap } in
    let joined = add_client s.registry m.client_id m.name ip i.time in
    let announced = record greeted {
      registry = joined.0;
      hub = broadcast i.picks (client_connected joined.1) s.hub;
      db = (add_audit_log i.audit_id i.time "CLIENT_CONNECTED" m.client_id m.name ip s.db).1;
    } in
    if not (m.kind == "hello") || m.client_id == ""
    then (false, s)
    else if not i.writes
    then (false, greeted)
    else (true, set m.client_id p announced)

-- A frame from the daemon: a payload that is no base64 is `none`, and all other kinds are `other`.
pub data InFrame : Type 0 where
  ping other : InFrame
  data_in : String → Option (List ℕ) → InFrame
  close_in : String → InFrame

-- One round of the read loop.
unfoldable pub handle_frame : Bool → ℕ → InFrame → Relay → Relay
unfolding send write_to_external close_conn
handle_frame writes p ping s = at p (λ x o. (send writes pong x, o)) s
handle_frame writes p other s = s
handle_frame writes p (data_in conn_id none) s = s
handle_frame writes p (data_in conn_id (some bytes)) s =
    at p (λ x o. (x, write_to_external conn_id bytes x o)) s
handle_frame writes p (close_in conn_id) s = at p (λ x o. close_conn writes conn_id false x o) s

-- The deferred function at the end of a control connection.
unfoldable pub disconnect : Now → ℕ → String → String → Relay → Relay
unfolding del close_all_external
disconnect i p client_id ip s =
    let closed = at p (λ x o. close_all_external x o) (del client_id s) in
    record closed {
      registry = mark_offline s.registry client_id;
      hub = broadcast i.picks (client_disconnected client_id) s.hub;
      db = (add_audit_log i.audit_id i.time "CLIENT_DISCONNECTED" client_id "" ip s.db).1;
    }
