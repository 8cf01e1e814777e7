-- ===== src/Startup.antt =====
-- relay/server/run.go: the relay starts, serves until a signal comes, and cleans up. What the API and
-- the control connections do with the listeners meanwhile is a list of events; what they do to the
-- database and the registry is the other modules' part.
pub mod Cleanup
pub mod Samples
use taildog.Prelude.{
  ℕ, String, Bool, true, false, not, Option, none, some, List, [], ◌∷◌, ◌++◌, Result, ok, err,
  if◌then◌else◌,
}
use taildog.Proxies.{
  Machine, UfwCommand, ProxyStore, new_proxy_store, tcp, ufw_allow, ufw_delete, stop_all,
}
use taildog.Proxies.History.{Event, handle_all}
use taildog.Db.{Db, DbError, is_first_run}
use taildog.Auth.{Bcrypt}
use taildog.Auth.Password.{Unicode}
use taildog.Auth.Wizard.{WizardError, run_wizard}
use taildog.Auth.Secret.{Host, SecretError, load_secret}
use taildog.Certs.{CertFiles, TlsError, X509, Attempt, ensure_certs}

pub record Config : Type 0 where
  pub data_dir : String
  pub control_port : ℕ
  pub api_port : ℕ
  pub api_host : String
  pub dashboard_origin : String
  pub version : String

unfoldable pub default_config : Config
default_config = record {
  data_dir = "./data";
  control_port = 7700;
  api_port = 7701;
  api_host = "0.0.0.0";
  dashboard_origin = "http://localhost:5173";
  version = "0.1.0";
}

pub data RunError : Type 0 where
  mkdir_data open_db load_certs control_listen : RunError
  first_run_check : DbError → RunError
  wizard : WizardError → RunError
  tls : TlsError → RunError
  jwt_secret : SecretError → RunError

-- What one run is answered: the data directory, sql.Open with the schema, what is typed in the wizard,
-- the system under EnsureCerts, tls.LoadX509KeyPair, the firewall, what happens to the listeners until
-- the signal, and the two calls that listen.
pub record Env : Type 0 where
  pub makes_data_dir : Bool
  pub opened : Option Db
  pub unicode : Unicode
  pub bcrypt : Bcrypt
  pub wizard_id : String
  pub wizard_now : ℕ
  pub names : List String
  pub passwords : List String
  pub x509 : X509
  pub attempt : Attempt
  pub loads_pair : CertFiles → Bool
  pub machine : Machine
  pub events : List Event
  pub api_listens : Bool
  pub listens : Bool

-- `own` are the firewall commands of run.go itself; those for the tunnels are the store's. The last two
-- fields say whether the HTTP server and the control listener are listening.
pub record State : Type 0 where
  pub db : Option Db
  pub db_open : Bool
  pub certs : CertFiles
  pub secret : Host
  pub own : List UfwCommand
  pub proxies : ProxyStore
  pub api_serving : Bool
  pub control_open : Bool

module _ (cfg : Config) (v : Env) where
  unfoldable pub allow_own : State → State
  unfolding ufw_allow
  allow_own s = record s {
    own =
        s.own ++ (ufw_allow v.machine cfg.control_port tcp ++ ufw_allow v.machine cfg.api_port tcp);
  }

  -- The deferred function.
  unfoldable pub remove_rules : State → State
  unfolding ufw_delete
  remove_rules s = record s {
    own =
        s.own
        ++ (ufw_delete v.machine cfg.control_port tcp ++ ufw_delete v.machine cfg.api_port tcp);
    proxies = stop_all v.machine s.proxies;
  }

  -- The HTTP server's goroutine, and what is done with the listeners of tunnels while Run goes on.
  unfoldable pub start_api : State → State
  start_api s = record s {
    api_serving = v.api_listens;
    proxies = handle_all v.machine v.events s.proxies;
  }

  -- After the signal: Shutdown and Close.
  unfoldable pub shut_down : State → State
  shut_down s = record s { api_serving = false; control_open = false }

  -- From the firewall on.
  unfoldable pub serve : State → Result RunError (Unit {0}) × State
  unfolding allow_own remove_rules start_api shut_down
  serve s =
      let started = start_api (allow_own s) in
      if v.listens
      then (ok tt, remove_rules (shut_down (record started { control_open = true })))
      else (err control_listen, remove_rules started)

  unfoldable pub with_secret : State → Result RunError (Unit {0}) × State
  unfolding serve
  with_secret s =
      let loaded = load_secret s.secret in
      let s' = record s { secret = loaded.1 } in
      elim loaded.0 [ err e ↦ (err (jwt_secret e), s') | ok bytes ↦ serve s' ]

  unfoldable pub with_certs : State → Result RunError (Unit {0}) × State
  unfolding with_secret
  with_certs s =
      let made = ensure_certs v.x509 v.attempt s.certs in
      let s' = record s { certs = made.1 } in
      elim made.0 [
        | err e ↦ (err (tls e), s')
        | ok u ↦ if v.loads_pair made.1 then with_secret s' else (err load_certs, s')
      ]

  -- The first account, where the table of users is empty.
  unfoldable pub with_users : Db → State → Result RunError (Unit {0}) × State
  unfolding with_certs
  with_users d s =
      let first = is_first_run d in
      elim first.0 [
        | err e ↦ (err (first_run_check e), record s { db = some first.1 })
        | ok false ↦ with_certs (record s { db = some first.1 })
        | ok true ↦
            let made =
              run_wizard v.unicode v.bcrypt v.wizard_id v.wizard_now v.names v.passwords first.1 in
            let s' = record s { db = some made.1 } in
            elim made.0 [ err e ↦ (err (wizard e), s') | ok u ↦ with_certs s' ]
      ]

  -- The deferred Close.
  abbrev pub close_db : Result RunError (Unit {0}) × State → Result RunError (Unit {0}) × State
  close_db x = (x.0, record x.1 { db_open = false })

  unfoldable pub run : State → Result RunError (Unit {0}) × State
  unfolding with_users
  run s =
      if v.makes_data_dir
      then elim v.opened [
        | none ↦ (err open_db, s)
        | some d ↦ close_db (with_users d (record s { db = some d; db_open = true }))
      ]
      else (err mkdir_data, s)
