-- ===== src/Startup/Samples.antt =====
-- A run on a machine with ufw that a signal ends, and the theorem there.
use taildog.Prelude.{refl, ◌≡◌, true, false, string_key, none, some, [], ok, err}
use taildog.Proxies.{new_proxy_store}
use taildog.Proxies.Samples.{ubuntu, day, day-AllFresh}
use taildog.Db.{is_first_run}
use taildog.Db.Samples.{one_user}
use taildog.Auth.Secret.{load_secret}
use taildog.Certs.{ensure_certs}
use taildog.Certs.Samples.{one_byte, first_start, no_certs}
use taildog.Auth.Samples.{ascii, plain}
use taildog.Auth.Samples
use taildog.Startup.{default_config, Env, State, control_listen, run}
use taildog.Startup.Cleanup.{Leaves, run-IsClean}

abbrev env : Env
env = record {
  makes_data_dir = true;
  opened = some one_user;
  unicode = ascii;
  bcrypt = plain;
  wizard_id = "u9";
  wizard_now = 100;
  names = [];
  passwords = [];
  x509 = one_byte;
  attempt = first_start;
  loads_pair = λ f. true;
  machine = ubuntu;
  events = day;
  api_listens = true;
  listens = true;
}

abbrev start_state : State
start_state = record {
  db = none;
  db_open = false;
  certs = no_certs;
  secret = Samples.first_start;
  own = [];
  proxies = new_proxy_store;
  api_serving = false;
  control_open = false;
}

run-IsClean_example :
    Leaves env (run default_config env start_state)
    × ((run default_config env start_state).1.db_open ≡ false)
run-IsClean_example =
    run-IsClean default_config env refl day-AllFresh start_state
      (record { no_rules = refl; no_proxies = refl; no_api = refl; no_listener = refl }) refl

-- The signal ends it.
ends_well : (run default_config env start_state).0 ≡ ok tt
unfolding run is_first_run ensure_certs load_secret
ends_well = refl

-- The control port is taken: the HTTP server is not shut down.
abbrev taken : Env
taken = record env { listens = false }

api_left :
    ((run default_config taken start_state).0 ≡ err control_listen)
    × ((run default_config taken start_state).1.api_serving ≡ true)
unfolding run is_first_run ensure_certs load_secret
api_left = (refl, refl)
