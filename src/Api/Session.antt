-- ===== src/Api/Session.antt =====
-- The handlers of a session: login, refresh, logout, me.
pub mod Login
pub mod Accepted
pub mod Refresh
use taildog.Prelude.{
  ℕ, ◌+◌, ◌≡◌, String, Bool, true, false, not, string_key, ◌==◌, Option, none, some, List, [], ◌∷◌,
  Result, ok, err, if◌then◌else◌, ltb,
}
use taildog.Db.{
  Db, DbError, User, RefreshToken, check_rate_limit, record_failed_attempt, reset_rate_limit,
  update_last_login, get_user_by_username, get_user_by_id, store_refresh_token, get_refresh_token,
  delete_refresh_token, add_audit_log,
}
use taildog.Auth.{
  Claims, AuthError, issue_access_token, issue_refresh_token, validate_token, check_password,
}
use taildog.Api.{
  Packages, Inputs, Server, Request, Response, Body, json_error, json_ok, with_db, ignore,
  client_ip, audit_as, audit_claims, status, login, access, account,
}

pub record LoginBody : Type 0 where
  pub username : String
  pub password : String

-- A value, or `false` where the call failed: `locked, err := …; if err != nil { log }`.
abbrev true_or_failed : Result DbError Bool → Bool
true_or_failed (ok b) = b
true_or_failed (err e) = false

module _ (k : Packages) (i : Inputs) (r : Request) where
  abbrev ip : String
  ip = client_ip k r

  -- `fail`: count the attempt, log it, and answer 401.
  unfoldable pub fail_login : LoginBody → String → Server → Response × Server
  unfolding audit_as
  fail_login b msg s = (
    json_error 401 "invalid credentials",
    audit_as k i r "LOGIN_FAILED" b.username msg
        (ignore s (record_failed_attempt (client_ip k r) i.now)),
  )

  unfoldable pub finish_login : User → String → Result AuthError String → Server → Response × Server
  unfolding audit_as
  finish_login u access_token (err e) s = (json_error 500 "could not issue refresh token", s)
  finish_login u access_token (ok refresh_token) s = (
    json_ok (login access_token refresh_token 900),
    audit_as k i r "LOGIN_SUCCESS" u.username "" (
        ignore s
          (store_refresh_token i.new_id u.id (k.sha256_hex refresh_token) (i.now + 604800) i.now)),
  )

  unfoldable pub issue_refresh : User → Result AuthError String → Server → Response × Server
  unfolding finish_login
  issue_refresh u (err e) s = (json_error 500 "could not issue token", s)
  issue_refresh u (ok access_token) s =
      finish_login u access_token (issue_refresh_token k.jwt s.secret u.id i.now) s

  unfoldable pub accept_login : User → Server → Response × Server
  unfolding issue_refresh
  accept_login u s =
      let s' =
        ignore (ignore s (reset_rate_limit (client_ip k r))) (update_last_login u.id i.now) in
      issue_refresh u (issue_access_token k.jwt s.secret u.id u.role i.now) s'

  unfoldable pub check_user : LoginBody → Result DbError (Option User) → Server → Response × Server
  unfolding fail_login accept_login
  check_user b (err e) s = fail_login b "user not found" s
  check_user b (ok none) s = fail_login b "user not found" s
  check_user b (ok (some u)) s =
      if check_password k.bcrypt u.password_hash b.password
      then accept_login u s
      else fail_login b "wrong password" s

  unfoldable pub look_up_user : LoginBody → Server → Response × Server
  unfolding check_user
  look_up_user b s =
      let call = with_db s (get_user_by_username b.username) in check_user b call.0 call.1

  unfoldable pub handle_login : Option LoginBody → Server → Response × Server
  unfolding look_up_user
  handle_login none s = (json_error 400 "invalid body", s)
  handle_login (some b) s =
      let call = with_db s (check_rate_limit (client_ip k r) i.now) in
      if true_or_failed call.0
      then (json_error 429 "too many failed attempts — try again later", call.1)
      else look_up_user b call.1

  unfoldable pub refresh_issue : Result AuthError String → Server → Response × Server
  refresh_issue (err e) s = (json_error 500 "could not issue token", s)
  refresh_issue (ok token) s = (json_ok (access token 900), s)

  unfoldable pub refresh_user : Result DbError (Option User) → Server → Response × Server
  unfolding refresh_issue
  refresh_user (err e) s = (json_error 401 "user not found", s)
  refresh_user (ok none) s = (json_error 401 "user not found", s)
  refresh_user (ok (some u)) s =
      refresh_issue (issue_access_token k.jwt s.secret u.id u.role i.now) s

  unfoldable pub refresh_row :
      Claims → String → Result DbError (Option RefreshToken) → Server → Response × Server
  unfolding refresh_user
  refresh_row c h (err e) s = (json_error 401 "refresh token not found or revoked", s)
  refresh_row c h (ok none) s = (json_error 401 "refresh token not found or revoked", s)
  refresh_row c h (ok (some t)) s =
      let call = with_db s (get_user_by_id c.user_id) in
      if ltb t.expires_at i.now
      then (json_error 401 "refresh token expired", ignore s (delete_refresh_token h))
      else refresh_user call.0 call.1

  unfoldable pub refresh_claims_of : String → Result AuthError Claims → Server → Response × Server
  unfolding refresh_row
  refresh_claims_of token (err e) s = (json_error 401 "invalid refresh token", s)
  refresh_claims_of token (ok c) s =
      let call = with_db s (get_refresh_token (k.sha256_hex token)) in
      refresh_row c (k.sha256_hex token) call.0 call.1

  -- The body's refreshToken, "" where the field is missing.
  unfoldable pub handle_refresh : Option String → Server → Response × Server
  unfolding refresh_claims_of
  handle_refresh none s = (json_error 400 "missing refreshToken", s)
  handle_refresh (some token) s =
      if token == ""
      then (json_error 400 "missing refreshToken", s)
      else refresh_claims_of token (validate_token k.jwt s.secret i.now token) s

  -- A body that cannot be decoded leaves the field empty.
  unfoldable pub handle_logout : String → Server → Response × Server
  unfolding audit_as
  handle_logout token s =
      let revoked = ignore s (delete_refresh_token (k.sha256_hex token)) in
      (json_ok (status "ok"), audit_claims k i r "LOGOUT" "" (if token == "" then s else revoked))

  me_of : Result DbError (Option User) → Response
  me_of (err e) = json_error 404 "user not found"
  me_of (ok none) = json_error 404 "user not found"
  me_of (ok (some u)) = json_ok (account u.id u.username u.role)

  -- The middleware has put claims into the context of this route.
  unfoldable pub handle_me : Claims → Server → Response × Server
  unfolding me_of
  handle_me c s = let call = with_db s (get_user_by_id c.user_id) in (me_of call.0, call.1)
