-- ===== src/Api/Router/Protection.antt =====
-- Who gets through the middleware to a handler, and what a request that does not may change.
use taildog.Prelude.{
  refl, ◌∙◌, ℕ, ◌+◌, ◌<◌, ◌≡◌, ◌≢◌, inl, inr, String, false, string_key, ◌==◌, Option, none, some,
  List, arith, ok, err, Bool-cases,
}
use taildog.Auth.{IsSound, Claims, AuthError, validate_token, issue_refresh_token, refresh_claims}
use taildog.Auth.Tokens.{validate_token-issue_refresh_token}
use taildog.Api.{Packages, Inputs, Server, Request, Response, json_error}
use taildog.Api.Router.{
  Payload, Route, Access, public, authed, admin, access_of, find_route, bearer_token, handle,
  is_admin, admin_middleware, check_bearer, auth_middleware, protect, cors_middleware, serve,
}

-- A request for a route of the table that is no preflight, and does not use the events path.
pub record Asks (segments : List String) (route : Route) (r : Request) : Type 0 where
  pub found : find_route r.method segments ≡ some route
  pub no_preflight : (r.method == "OPTIONS") ≡ false
  pub not_events : (r.path == "/api/events") ≡ false

module _ (k : Packages) (i : Inputs) (next : Request → Server → Response × Server) (q : Request)
    (s : Server) where
  auth_refused :
      (e : AuthError)
      → (q.path == "/api/events") ≡ false
      → validate_token k.jwt s.secret i.now (bearer_token q) ≡ err e
      → ((auth_middleware k i next q s).0.code ≡ 401) × ((auth_middleware k i next q s).1 ≡ s)
  unfolding auth_middleware check_bearer
  auth_refused e path bad = elim (Bool-cases (bearer_token q == "")) [
    | inl t ↦ rw (path, t) (refl, refl)
    | inr f ↦ rw (path, f, check_bearer, bad) (refl, refl)
  ]

  -- A valid token leads to the next handler, with its claims in the context.
  auth_passed :
      (c : Claims)
      → (q.path == "/api/events") ≡ false
      → (bearer_token q == "") ≡ false
      → validate_token k.jwt s.secret i.now (bearer_token q) ≡ ok c
      → auth_middleware k i next q s ≡ next (record q { claims = some c }) s
  unfolding auth_middleware check_bearer
  auth_passed c path t good = rw (path, t, check_bearer, good) refl

protect_refused :
    (k : Packages) (i : Inputs) (a : Access) (next : Request → Server → Response × Server)
    (q : Request) (s : Server) (e : AuthError)
    → a ≢ public
    → (q.path == "/api/events") ≡ false
    → validate_token k.jwt s.secret i.now (bearer_token q) ≡ err e
    → ((protect k i a next q s).0.code ≡ 401) × ((protect k i a next q s).1 ≡ s)
unfolding protect
protect_refused k i public next q s e private path bad = absurd (private refl)
protect_refused k i authed next q s e private path bad = auth_refused k i next q s e path bad
protect_refused k i admin next q s e private path bad =
    auth_refused k i (admin_middleware k i admin next) q s e path bad

module _ (k : Packages) (i : Inputs) (segments : List String) (p : Payload) (route : Route)
    (r : Request) (s : Server) (asks : Asks segments route r) where
  abbrev with_context : Option Claims → Request
  with_context c = record r { claims = c }

  serve_found :
      serve k i segments p r s
      ≡ protect k i (access_of route) (λ r' s'. handle k i route r' p s') (with_context none) s
  unfolding serve cors_middleware
  serve_found = ground (arith, asks.found, asks.no_preflight)

  -- A route of the table that is not public, other than the events path and preflights, answers 401
  -- to a request whose token is missing or not valid, and changes nothing.
  pub serve_unauthorized :
      (e : AuthError)
      → access_of route ≢ public
      → validate_token k.jwt s.secret i.now (bearer_token r) ≡ err e
      → ((serve k i segments p r s).0.code ≡ 401) × ((serve k i segments p r s).1 ≡ s)
  unfolding bearer_token
  serve_unauthorized e private bad = rw serve_found (
      protect_refused k i (access_of route) (λ r' s'. handle k i route r' p s') (with_context none)
        s e private asks.not_events bad)

  -- An admin route of the table, preflights aside, answers 403 to a request whose token is valid
  -- and whose role is not "admin", and changes nothing.
  pub serve_forbidden :
      (c : Claims)
      → access_of route ≡ admin
      → (bearer_token r == "") ≡ false
      → validate_token k.jwt s.secret i.now (bearer_token r) ≡ ok c
      → (c.role == "admin") ≡ false
      → ((serve k i segments p r s).0 ≡ json_error 403 "admin required")
        × ((serve k i segments p r s).1 ≡ s)
  unfolding bearer_token protect admin_middleware is_admin
  serve_forbidden c a t good role =
      rw (serve_found, a)
        (rw
          (
            auth_passed k i (admin_middleware k i admin (λ r' s'. handle k i route r' p s'))
                (with_context none) s c asks.not_events t good,
            role,
          )
          (refl, refl))

  -- Under a sound JWT package a refresh token serves as an access token: for the seven days that it
  -- is signed for, whatever the database holds, a route that needs a login and is not the events
  -- path serves its bearer under the refresh token's claims.
  pub refresh_token_authenticates :
      (user_id token : String) (issued : ℕ)
      → IsSound k.jwt
      → access_of route ≡ authed
      → (bearer_token r == "") ≡ false
      → bearer_token r ≡ token
      → issue_refresh_token k.jwt s.secret user_id issued ≡ ok token
      → i.now < issued + 604800
      → serve k i segments p r s
        ≡ handle k i route (with_context (some (refresh_claims user_id issued))) p s
  unfolding bearer_token protect
  refresh_token_authenticates user_id token issued sound a t same e young =
      rw (serve_found, a)
        (auth_passed k i (λ r' s'. handle k i route r' p s') (with_context none) s
          (refresh_claims user_id issued) asks.not_events t accepted)
    where
      accepted :
          validate_token k.jwt s.secret i.now (bearer_token r) ≡ ok (refresh_claims user_id issued)
      accepted = rw same (
          validate_token-issue_refresh_token k.jwt sound s.secret user_id token issued i.now e
          ∙ ground arith)
