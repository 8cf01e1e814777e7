-- ===== src/Api/Samples.antt =====
-- A relay with one user, one client and one tunnel, and the theorems on the handlers at inputs.
pub mod Routes
use mathlib.Core.Option
use taildog.Prelude.{
  refl, sym, ℕ, ℤ, pos, ◌+◌, ◌<◌, ◌≡◌, ◌≢◌, String, Bool, true, false, not, string_key, nat_key,
  ◌==◌, Option, none, some, List, [], ◌∷◌, arith, Result, ok, err, if◌then◌else◌, ltb, leb, eq_iff,
}
use taildog.Dict.{get, put, delete}
use taildog.Db.{
  Db, User, RefreshToken, has_id, has_hash, check_rate_limit, get_user_by_username,
  get_refresh_token, record_failed_attempt, delete_all_refresh_tokens, add_audit_log,
}
use taildog.Db.Rows.{find, update}
use taildog.Db.Lockout.{failures, last_or}
use taildog.Db.Samples.{one_user, ada, phone}
use taildog.Auth.{
  Claims, invalid_token, issue_access_token, issue_refresh_token, validate_token, check_password,
  refresh_claims, access_claims,
}
use taildog.Auth.Samples.{
  three_tokens, three_tokens-IsSound, plain, plain-HashesMatch, early_access, late_access, session,
  key,
}
use taildog.Pool.{
  allocate, auto_assign, scan, advance, is_allocated, new_pool, in_range, allocate_at, take_port,
}
use taildog.Registry.{Tunnel, tunnel_of, add_client, register, new_registry, get_tunnel}
use taildog.Registry.System.{System, Inv}
use taildog.Registry.Samples.{serving, serving-Inv}
use taildog.Hub.{new_hub}
use taildog.Proxies.{new_proxy_store}
use taildog.Proxies.Samples.{ubuntu}
use taildog.Api.{
  Packages, Inputs, Server, Request, Response, json_error, json_ok, json_created, before_comma,
  client_ip, access, tunnel, status, login,
}
use taildog.Api.Session.{LoginBody, handle_login, handle_refresh, handle_logout}
use taildog.Api.Session.Login.{login_locked_out, login_wrong}
use taildog.Api.Session.Accepted.{LoggedIn}
use taildog.Api.Session.Refresh.{Accepted, handle_login-LoggedIn, refresh-login, refresh-logout}
use taildog.Api.Tunnels.{CreateBody, handle_create_tunnel, handle_delete_tunnel}
use taildog.Api.Admin.{PasswordBody, handle_change_password, handle_revoke_all_sessions}
use taildog.Api.Admin.Accounts.{ChangeOutcome, handle_change_password-ChangeOutcome}
use taildog.Api.Router.{
  Payload, Route, me, audit_log, serve, handle, find_route, bearer_token, access_of,
}
use taildog.Api.Router.Protection.{
  Asks, serve_unauthorized, serve_forbidden, refresh_token_authenticates,
}

abbrev pub packages : Packages
packages = record {
  jwt = three_tokens;
  bcrypt = plain;
  sha256_hex = λ s. s;
  split_host_port = λ s. none;
  error_text = λ e. "no port";
  port_detail = λ n. "port";
  tunnel_detail = λ id. id;
  no_match = λ m p. 404;
}

abbrev pub at_time : ℕ → Inputs
at_time now = record {
  now = now;
  new_id = "t2";
  audit_id = "a9";
  picks = λ n. false;
  port_opens = false;
  outbound_ip = "10.0.0.1";
}

abbrev pub asks : String → String → String → Request
asks method path authorization = record {
  method = method;
  path = path;
  origin = "";
  authorization = authorization;
  forwarded_for = "";
  remote_addr = "10.0.0.9";
  host = "relay";
  token_param = "";
  claims = none;
}

abbrev pub relay : Server
relay = record {
  db = one_user;
  registry = serving.registry;
  hub = new_hub;
  proxies = some new_proxy_store;
  machine = ubuntu;
  dashboard_origin = "";
  start_time = 0;
  secret = key;
}

abbrev login_request : Request
login_request = asks "POST" "/api/auth/login" ""

abbrev right : LoginBody
right = record { username = "ada"; password = "Abcdefgh-123" }

abbrev mistyped : LoginBody
mistyped = record { username = "ada"; password = "abcdefgh-123" }

abbrev locked_relay : Server
locked_relay = record relay {
  db = failures "10.0.0.9" (1000 ∷ 1001 ∷ 1002 ∷ 1003 ∷ 1004 ∷ []) one_user;
}

login_locked_out_example :
    ((handle_login packages (at_time 1600) login_request (some right) locked_relay).0.code ≡ 429)
    × ((handle_login packages (at_time 1600) login_request (some right) locked_relay).1.db.tables
        ≡ locked_relay.db.tables)
unfolding client_ip get
login_locked_out_example =
    login_locked_out packages (at_time 1600) login_request right relay 1000
      (1001 ∷ 1002 ∷ 1003 ∷ 1004 ∷ []) refl (refl, refl) (omega arith) (omega arith)

login_wrong_example :
    ((handle_login packages (at_time 1600) login_request (some mistyped) relay).0
      ≡ json_error 401 "invalid credentials")
    × ((handle_login packages (at_time 1600) login_request (some mistyped) relay).1.db.rate_limit
        ≡ (record_failed_attempt (client_ip packages login_request) 1600 one_user).1.rate_limit)
    × ((handle_login packages
          (at_time 1600)
          login_request
          (some mistyped)
          relay).1.db.refresh_tokens
        ≡ one_user.refresh_tokens)
    × ((handle_login packages (at_time 1600) login_request (some mistyped) relay).1.db.users
        ≡ one_user.users)
unfolding client_ip check_rate_limit get get_user_by_username find check_password
login_wrong_example =
    login_wrong packages (at_time 1600) login_request mistyped relay refl (some ada) refl refl refl

right-Accepted : Accepted packages (at_time 1000) login_request right relay ada "early" "session"
unfolding client_ip check_rate_limit get get_user_by_username find check_password issue_access_token
    issue_refresh_token
right-Accepted = record {
  none_fail = refl;
  not_locked = refl;
  by_name = refl;
  by_id = refl;
  password = refl;
  access_signed = refl;
  refresh_signed = refl;
}

handle_login-LoggedIn_example :
    ((handle_login packages (at_time 1000) login_request (some right) relay).0
      ≡ json_ok (login "early" "session" 900))
    × LoggedIn packages
        (at_time 1000)
        login_request
        ada
        "session"
        relay
        (handle_login packages (at_time 1000) login_request (some right) relay).1
handle_login-LoggedIn_example =
    handle_login-LoggedIn packages (at_time 1000) login_request right relay ada "early" "session"
      right-Accepted

refresh-login_example :
    (handle_refresh packages
      (at_time 5000)
      login_request
      (some "session")
      (handle_login packages (at_time 1000) login_request (some right) relay).1).0
    ≡ json_ok (access "late" 900)
unfolding issue_access_token find
refresh-login_example =
    refresh-login packages (at_time 1000) login_request right relay ada "early" "session"
      right-Accepted (at_time 5000) login_request "late" three_tokens-IsSound refl refl
      (omega arith) refl

refresh-logout_example :
    (handle_refresh packages
      (at_time 5000)
      login_request
      (some "hash-1")
      (handle_logout packages (at_time 4000) login_request "hash-1" relay).1).0.code
    ≡ 401
refresh-logout_example =
    refresh-logout packages relay "hash-1" refl refl (at_time 4000) (at_time 5000) login_request
      login_request
