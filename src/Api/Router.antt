-- ===== src/Api/Router.antt =====
-- NewRouter of relay/internal/api/handlers.go: the route table and the middleware chain. Matching a
-- request's path and method against the table is gorilla/mux; here a path is the list of its segments.
-- The embedded dashboard (spaHandler) is not modelled: a request outside the
-- table is answered by mux, with a code that is a parameter.
pub mod Protection
use taildog.Prelude.{
  strip_prefix, ℕ, ℤ, ◌+◌, ◌≡◌, String, Bool, true, false, not, ◌&&◌, ◌||◌, string_key, ◌==◌,
  Option, none, some, List, [], ◌∷◌, Result, ok, err, if◌then◌else◌,
}
use taildog.Auth.{Claims, AuthError, validate_token}
use taildog.Hub.{serve_ws}
use taildog.Api.{Packages, Inputs, Server, Request, Response, json_error, json_ok, empty, upgraded}
use taildog.Api.Session.{LoginBody, handle_login, handle_refresh, handle_logout, handle_me}
use taildog.Api.Tunnels.{
  CreateBody, handle_list_clients, handle_client_tunnels, handle_create_tunnel,
  handle_delete_tunnel, handle_server_info, handle_debug,
}
use taildog.Api.Admin.{
  PasswordBody, handle_get_canvas, handle_save_canvas, handle_audit_log, handle_change_password,
  handle_revoke_all_sessions,
}

-- What json.Decode, io.ReadAll and strconv.Atoi make of the body or the query for each route.
pub record Payload : Type 0 where
  pub login_body : Option LoginBody
  pub refresh_token : Option String
  pub create_body : Option CreateBody
  pub canvas_body : Option (String × Bool)
  pub password_body : Option PasswordBody
  pub limit : Option ℤ
  pub ws_upgraded : Bool
  pub ws_id : ℕ

pub data Route : Type 0 where
  login refresh debug logout me list_clients create_tunnel server_info get_canvas save_canvas :
      Route
  audit_log change_password revoke_all_sessions events : Route
  client_tunnels delete_tunnel : String → Route

pub data Access : Type 0 where
  public authed admin : Access

abbrev pub access_of : Route → Access
access_of login = public
access_of refresh = public
access_of debug = public
access_of audit_log = admin
access_of change_password = admin
access_of revoke_all_sessions = admin
access_of _ = authed

-- `.Methods(m, http.MethodOptions)`.
abbrev pub or_options : String → String → Route → Option Route
or_options method m route = if method == m || method == "OPTIONS" then some route else none

abbrev pub first_route : Option Route → Option Route → Option Route
first_route (some r) other = some r
first_route none other = other

-- The table under /api, by the segments that follow it; of two entries the earlier one counts.
unfoldable pub find_route : String → List String → Option Route
find_route m (a ∷ []) =
    if a == "debug"
    then or_options m "GET" debug
    else if a == "clients"
    then or_options m "GET" list_clients
    else if a == "tunnels"
    then or_options m "POST" create_tunnel
    else if a == "canvas"
    then first_route (or_options m "GET" get_canvas) (or_options m "PUT" save_canvas)
    else if a == "events" && m == "GET"
    then some events
    else none
find_route m (a ∷ b ∷ []) =
    if a == "auth"
    then (if b == "login"
        then or_options m "POST" login
        else if b == "refresh"
        then or_options m "POST" refresh
        else if b == "logout"
        then or_options m "POST" logout
        else if b == "me"
        then or_options m "GET" me
        else none)
    else if a == "tunnels"
    then or_options m "DELETE" (delete_tunnel b)
    else if a == "server" && b == "info"
    then or_options m "GET" server_info
    else if a == "admin"
    then (if b == "audit-log"
        then or_options m "GET" audit_log
        else if b == "change-password"
        then or_options m "POST" change_password
        else if b == "revoke-all-sessions"
        then or_options m "POST" revoke_all_sessions
        else none)
    else none
find_route m (a ∷ b ∷ c ∷ []) =
    if a == "clients" && c == "tunnels" then or_options m "GET" (client_tunnels b) else none
find_route m _ = none

abbrev pub or_empty : Option String → String
or_empty none = ""
or_empty (some s) = s

-- `len(h) > 7 && h[:7] == "Bearer "`: the rest of the header, or "".
unfoldable pub bearer_token : Request → String
unfolding strip_prefix
bearer_token r = or_empty (strip_prefix "Bearer " r.authorization)

module _ (k : Packages) (i : Inputs) where
  -- handleEvents checks the token of the query itself.
  unfoldable pub handle_events : Request → Payload → Server → Response × Server
  handle_events r p s =
      if r.token_param == ""
      then (json_error 401 "missing token", s)
      else elim (validate_token k.jwt s.secret i.now r.token_param) [
        | err e ↦ (json_error 401 "invalid token", s)
        | ok c ↦ (json_ok upgraded, record s { hub = serve_ws p.ws_upgraded p.ws_id s.hub })
      ]

  -- The handlers that read claims without a check run behind authMiddleware, which has set them.
  with_claims : Request → (Claims → Response × Server) → Server → Response × Server
  with_claims r f s = elim r.claims [ none ↦ (json_error 500 "", s) | some c ↦ f c ]

  unfoldable pub handle : Route → Request → Payload → Server → Response × Server
  unfolding with_claims
  handle login r p s = handle_login k i r p.login_body s
  handle refresh r p s = handle_refresh k i r p.refresh_token s
  handle debug r p s = handle_debug s
  handle logout r p s = handle_logout k i r (or_empty p.refresh_token) s
  handle me r p s = with_claims r (λ c. handle_me k i r c s) s
  handle list_clients r p s = handle_list_clients s
  handle (client_tunnels id) r p s = handle_client_tunnels id s
  handle create_tunnel r p s = handle_create_tunnel k i r p.create_body s
  handle (delete_tunnel id) r p s = handle_delete_tunnel k i r id s
  handle server_info r p s = handle_server_info k i r s
  handle get_canvas r p s = handle_get_canvas s
  handle save_canvas r p s = handle_save_canvas p.canvas_body s
  handle audit_log r p s = handle_audit_log p.limit s
  handle change_password r p s =
      with_claims r (λ c. handle_change_password k i r c p.password_body s) s
  handle revoke_all_sessions r p s = with_claims r (λ c. handle_revoke_all_sessions k i r c s) s
  handle events r p s = handle_events r p s

  is_admin : Option Claims → Bool
  is_admin none = false
  is_admin (some c) = c.role == "admin"

  -- adminMiddleware, on the admin routes only.
  unfoldable pub admin_middleware :
      Access → (Request → Server → Response × Server) → Request → Server → Response × Server
  unfolding is_admin
  admin_middleware admin next r s =
      if is_admin r.claims then next r s else (json_error 403 "admin required", s)
  admin_middleware _ next r s = next r s

  check_bearer :
      String → (Request → Server → Response × Server) → Request → Server → Response × Server
  check_bearer token next r s = elim (validate_token k.jwt s.secret i.now token) [
    | err e ↦ (json_error 401 "invalid token", s)
    | ok c ↦ next (record r { claims = some c }) s
  ]

  -- authMiddleware; the events route is let through to its own check.
  unfoldable pub auth_middleware :
      (Request → Server → Response × Server) → Request → Server → Response × Server
  unfolding check_bearer
  auth_middleware next r s =
      if r.path == "/api/events"
      then next r s
      else if bearer_token r == ""
      then (json_error 401 "missing token", s)
      else check_bearer (bearer_token r) next r s

  unfoldable pub protect :
      Access → (Request → Server → Response × Server) → Request → Server → Response × Server
  protect public next r s = next r s
  protect authed next r s = auth_middleware next r s
  protect admin next r s = auth_middleware (admin_middleware admin next) r s

  -- corsMiddleware answers the preflight of a route that exists. Its headers are not modelled.
  unfoldable pub cors_middleware :
      (Request → Server → Response × Server) → Request → Server → Response × Server
  cors_middleware next r s =
      if r.method == "OPTIONS" then (record { code = 204; body = empty }, s) else next r s

  -- One request, from the router to the handler; a request comes without claims.
  unfoldable pub serve : List String → Payload → Request → Server → Response × Server
  serve segments p r s = elim (find_route r.method segments) [
    | none ↦ (json_error (k.no_match r.method segments) "", s)
    | some route ↦
        cors_middleware (protect (access_of route) (λ r' s'. handle route r' p s'))
          (record r { claims = none }) s
  ]
