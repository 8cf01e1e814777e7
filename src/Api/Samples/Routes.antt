-- ===== src/Api/Samples/Routes.antt =====
-- The theorems on tunnels, accounts and the middleware at inputs.
use taildog.Prelude.{
  strip_prefix, refl, pos, ◌≡◌, String, false, string_key, nat_key, none, some, List, [], ◌∷◌,
  arith,
}
use taildog.Db.Rows.{find}
use taildog.Db.Samples.{ada}
use taildog.Auth.{
  Claims, invalid_token, issue_refresh_token, validate_token, refresh_claims, access_claims,
}
use taildog.Auth.Samples.{three_tokens-IsSound, plain-HashesMatch, early_access, session}
use taildog.Registry.{Tunnel, tunnel_of}
use taildog.Registry.Samples.{serving, serving-Inv}
use taildog.Api.Samples.{packages, at_time, asks, relay}
use taildog.Api.{Request, json_error}
use taildog.Api.Tunnels.{CreateBody, handle_create_tunnel, handle_delete_tunnel}
use taildog.Api.Tunnels.Creation.{CreateOutcome, handle_create_tunnel-CreateOutcome}
use taildog.Api.Tunnels.Deletion.{DeleteOutcome, handle_delete_tunnel-DeleteOutcome}
use taildog.Api.Admin.{PasswordBody, handle_change_password}
use taildog.Api.Admin.Accounts.{ChangeOutcome, handle_change_password-ChangeOutcome}
use taildog.Api.Router.{Payload, me, audit_log, serve, handle, find_route, bearer_token}
use taildog.Api.Router.Protection.{
  Asks, serve_unauthorized, serve_forbidden, refresh_token_authenticates,
}

abbrev create_request : Request
create_request = asks "POST" "/api/tunnels" ""

abbrev ssh : CreateBody
ssh = record { client_id = "c1"; protocol = "tcp"; local_port = pos 22; remote_port = pos 0 }

handle_create_tunnel-CreateOutcome_example :
    CreateOutcome packages
      (at_time 200)
      create_request
      ssh
      relay
      (handle_create_tunnel packages (at_time 200) create_request (some ssh) relay).0
      (handle_create_tunnel packages (at_time 200) create_request (some ssh) relay).1
handle_create_tunnel-CreateOutcome_example =
    handle_create_tunnel-CreateOutcome packages (at_time 200) create_request ssh relay

abbrev deaf : Tunnel
deaf = tunnel_of "t2" "c1" "tcp" (pos 22) 10001 200

handle_delete_tunnel-DeleteOutcome_example :
    DeleteOutcome packages
      (at_time 200)
      create_request
      "t1"
      relay
      (handle_delete_tunnel packages (at_time 200) create_request "t1" relay).0
      (handle_delete_tunnel packages (at_time 200) create_request "t1" relay).1
handle_delete_tunnel-DeleteOutcome_example =
    handle_delete_tunnel-DeleteOutcome packages (at_time 200) create_request "t1" relay serving refl
      serving-Inv

abbrev new_password : PasswordBody
new_password = record { current_password = "Abcdefgh-123"; new_password = "aaaaaaaaaaaa" }

handle_change_password-ChangeOutcome_example :
    ChangeOutcome packages ada new_password relay
      (handle_change_password packages
        (at_time 1100)
        create_request
        early_access
        (some new_password)
        relay).0
      (handle_change_password packages
        (at_time 1100)
        create_request
        early_access
        (some new_password)
        relay).1
unfolding find
handle_change_password-ChangeOutcome_example =
    handle_change_password-ChangeOutcome packages (at_time 1100) create_request early_access
      new_password relay ada plain-HashesMatch refl refl refl

abbrev other_user : Claims
other_user = access_claims "u2" "admin" 1000

abbrev no_payload : Payload
no_payload = record {
  login_body = none;
  refresh_token = none;
  create_body = none;
  canvas_body = none;
  password_body = none;
  limit = none;
  ws_upgraded = false;
  ws_id = 0;
}

abbrev log_request : String → Request
log_request authorization = asks "GET" "/api/admin/audit-log" authorization

abbrev log_path : List String
log_path = "admin" ∷ "audit-log" ∷ []

log_request-Asks : (authorization : String) → Asks log_path audit_log (log_request authorization)
unfolding find_route
log_request-Asks authorization = record { found = refl; no_preflight = refl; not_events = refl }

serve_unauthorized_example :
    ((serve packages (at_time 2000) log_path no_payload (log_request "Bearer early") relay).0.code
      ≡ 401)
    × ((serve packages (at_time 2000) log_path no_payload (log_request "Bearer early") relay).1
        ≡ relay)
unfolding bearer_token strip_prefix validate_token
serve_unauthorized_example =
    serve_unauthorized packages (at_time 2000) log_path no_payload audit_log
      (log_request "Bearer early") relay (log_request-Asks "Bearer early") invalid_token (λ e. cc e)
      refl

serve_forbidden_example :
    ((serve packages (at_time 2000) log_path no_payload (log_request "Bearer session") relay).0
      ≡ json_error 403 "admin required")
    × ((serve packages (at_time 2000) log_path no_payload (log_request "Bearer session") relay).1
        ≡ relay)
unfolding bearer_token strip_prefix validate_token
serve_forbidden_example =
    serve_forbidden packages (at_time 2000) log_path no_payload audit_log
      (log_request "Bearer session") relay (log_request-Asks "Bearer session") session refl refl
      refl refl

abbrev me_request : Request
me_request = asks "GET" "/api/auth/me" "Bearer session"

me_request-Asks : Asks ("auth" ∷ "me" ∷ []) me me_request
unfolding find_route
me_request-Asks = record { found = refl; no_preflight = refl; not_events = refl }

refresh_token_authenticates_example :
    serve packages (at_time 5000) ("auth" ∷ "me" ∷ []) no_payload me_request relay
    ≡ handle packages
        (at_time 5000)
        me
        (record me_request { claims = some (refresh_claims "u1" 1000) })
        no_payload
        relay
unfolding bearer_token strip_prefix issue_refresh_token
refresh_token_authenticates_example =
    refresh_token_authenticates packages (at_time 5000) ("auth" ∷ "me" ∷ []) no_payload me
      me_request relay me_request-Asks "u1" "session" 1000 three_tokens-IsSound refl refl refl refl
      (omega arith)
