-- ===== src/Api.antt =====
-- relay/internal/api/handlers.go: the state behind the REST API, requests and responses, and the
-- helpers that the handlers share. The handlers are in the child modules.
--
-- A decoded JSON body is an `Option`, `none` where json.Decode reports an error. What a handler takes
-- from outside while it runs (the clock, new identifiers, which select case Go picks, whether the
-- system lets a port be opened) is one `Inputs` value; the clock stands still inside a handler.
pub mod Session
pub mod Tunnels
pub mod Admin
pub mod Router
pub mod Samples
use taildog.Prelude.{
  ℕ, ◌+◌, ◌≡◌, String, Bool, true, false, not, string_key, ◌==◌, Option, none, some, List, [], ◌∷◌,
  Result, ok, err, if◌then◌else◌, ltb,
}
use taildog.Db.{Db, DbError, User, AuditEntry, add_audit_log}
use taildog.Auth.{Jwt, Bcrypt, Claims}
use taildog.Registry.{Registry, RegistryError, Tunnel, Client}
use taildog.Hub.{Hub}
use taildog.Proxies.{ProxyStore, Machine}

-- The packages that the handlers call: SHA-256 in hexadecimal, the host that net.SplitHostPort
-- finds, and the texts that fmt and strconv make: an error of the registry, `port=…` and `tunnelID=…`, and the code with which
-- mux answers a request that no route matches.
pub record Packages : Type 0 where
  pub jwt : Jwt
  pub bcrypt : Bcrypt
  pub sha256_hex : String → String
  pub split_host_port : String → Option String
  pub error_text : RegistryError → String
  pub port_detail : ℕ → String
  pub tunnel_detail : String → String
  pub no_match : String → List String → ℕ

pub record Inputs : Type 0 where
  pub now : ℕ
  pub new_id : String
  pub audit_id : String
  pub picks : ℕ → Bool
  pub port_opens : Bool
  pub outbound_ip : String

-- The callbacks StartTunnelProxy and StopTunnelProxy are nil where `proxies` is none.
pub record Server : Type 0 where
  pub db : Db
  pub registry : Registry
  pub hub : Hub
  pub proxies : Option ProxyStore
  pub machine : Machine
  pub dashboard_origin : String
  pub start_time : ℕ
  pub secret : Option (List ℕ)

-- What the handlers read of a request; `claims` is what the middleware put in the context.
pub record Request : Type 0 where
  pub method : String
  pub path : String
  pub origin : String
  pub authorization : String
  pub forwarded_for : String
  pub remote_addr : String
  pub host : String
  pub token_param : String
  pub claims : Option Claims

pub data Body : Type 0 where
  empty : Body
  error : String → Body
  status : String → Body
  access : String → ℕ → Body
  login : String → String → ℕ → Body
  account : String → String → String → Body
  clients : List Client → Body
  tunnels : List Tunnel → Body
  tunnel : Tunnel → Body
  info : String → ℕ → ℕ → String → String → Body
  canvas : String → Body
  audit : List AuditEntry → Body
  debug : ℕ → ℕ → List Client → Body
  upgraded : Body

pub record Response : Type 0 where
  pub code : ℕ
  pub body : Body

abbrev pub json_error : ℕ → String → Response
json_error code msg = record { code = code; body = error msg }

abbrev pub json_ok : Body → Response
json_ok b = record { code = 200; body = b }

abbrev pub json_created : Body → Response
json_created b = record { code = 201; body = b }

-- A database call of a handler: its outcome, and the server with the new database.
abbrev pub with_db {ℓ} :
    {A : Type ℓ} → Server → (Db → Result DbError A × Db) → Result DbError A × Server
with_db s call = ((call s.db).0, record s { db = (call s.db).1 })

-- The same where the handler drops the error.
abbrev pub ignore {ℓ} : {A : Type ℓ} → Server → (Db → Result DbError A × Db) → Server
ignore s call = (with_db s call).1

-- strings.SplitN(s, ",", 2)[0].
unfoldable pub before_comma : String → String
before_comma String.[] = String.[]
before_comma (String.◌∷◌ c s) =
    let rest = before_comma s in
    if String.◌∷◌ c String.[] == "," then String.[] else String.◌∷◌ c rest

abbrev pub or_else {ℓ} : {A : Type ℓ} → Option A → A → A
or_else none a = a
or_else (some x) a = x

-- clientIP: the first address that the request itself names, or the address that it came from.
unfoldable pub client_ip : Packages → Request → String
unfolding before_comma
client_ip k r =
    if not (r.forwarded_for == "")
    then before_comma r.forwarded_for
    else or_else (k.split_host_port r.remote_addr) r.remote_addr

-- An entry of the audit log under the request's address; its error is dropped.
unfoldable pub audit_as : Packages → Inputs → Request → String → String → String → Server → Server
audit_as k i r event_type actor detail s =
    ignore s (add_audit_log i.audit_id i.now event_type actor detail (client_ip k r))

-- `if claims != nil { AddAuditLog(…) }`
abbrev pub audit_claims : Packages → Inputs → Request → String → String → Server → Server
audit_claims k i r event_type detail s = elim r.claims [
  | none ↦ s
  | some c ↦ audit_as k i r event_type c.user_id detail s
]
