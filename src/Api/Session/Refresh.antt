-- ===== src/Api/Session/Refresh.antt =====
-- handleRefresh after handleLogin, after handleLogout and after the seven days.
use taildog.Prelude.{
  refl, sym, ◌∙◌, ◌+◌, ◌<◌, ◌≡◌, inl, inr, String, true, false, string_key, ◌==◌, none, some, [],
  arith, ok, ltb, beq_refl, Option-cases, Result-cases,
}
use taildog.Db.{
  Db, User, RefreshToken, has_id, has_hash, check_rate_limit, get_user_by_username, get_user_by_id,
  get_refresh_token, delete_refresh_token, add_audit_log,
}
use taildog.Db.Rows.{find}
use taildog.Db.Tokens.{find-append, get_refresh_token-delete}
use taildog.Auth.{
  IsSound, Claims, issue_access_token, issue_refresh_token, validate_token, check_password,
  refresh_claims,
}
use taildog.Auth.Tokens.{validate_token-issue_refresh_token}
use taildog.Api.{Packages, Inputs, Server, Request, json_ok, client_ip, audit_as, login, access}
use taildog.Api.Session.{
  LoginBody, handle_login, check_user, accept_login, handle_refresh, handle_logout,
  refresh_claims_of, refresh_row, refresh_user, refresh_issue,
}
use taildog.Api.Session.Login.{handle_login_free}
use taildog.Api.Session.Accepted.{LoggedIn, logged_in, issued_row, accept_login-LoggedIn}

module _ (k : Packages) (i : Inputs) (r : Request) (s : Server) (token : String)
    (none_fail : s.db.faults ≡ []) (filled : (token == "") ≡ false) where
  refresh_known :
      (c : Claims) (row : RefreshToken) (u : User) (a : String)
      → validate_token k.jwt s.secret i.now token ≡ ok c
      → find (has_hash (k.sha256_hex token)) s.db.refresh_tokens ≡ some row
      → ltb row.expires_at i.now ≡ false
      → find (has_id c.user_id) s.db.users ≡ some u
      → issue_access_token k.jwt s.secret u.id u.role i.now ≡ ok a
      → (handle_refresh k i r (some token) s).0 ≡ json_ok (access a 900)
  unfolding handle_refresh refresh_claims_of refresh_row refresh_user refresh_issue
      get_refresh_token get_user_by_id
  refresh_known c row u a valid stored young known signed =
      rw (filled, valid, refresh_claims_of, none_fail) (rw (stored, young, known) (rw signed refl))

  -- A refresh whose row is gone is refused, also while the token itself is valid.
  refresh_gone :
      (get_refresh_token (k.sha256_hex token) s.db).0 ≡ ok none
      → ((handle_refresh k i r (some token) s).0.code ≡ 401)
        × ((handle_refresh k i r (some token) s).1.db.tables ≡ s.db.tables)
  unfolding handle_refresh refresh_claims_of refresh_row get_refresh_token
  refresh_gone gone = elim (Result-cases (validate_token k.jwt s.secret i.now token)) [
    | inl (e, invalid) ↦ rw (filled, invalid) (refl, refl)
    | inr (c, valid) ↦
        rw (filled, valid, refresh_claims_of, none_fail) (rw (rw none_fail at gone) (refl, refl))
  ]

  logout_db :
      (i' : Inputs) (r' : Request)
      → ((handle_logout k i' r' token s).1.db.refresh_tokens
          ≡ (delete_refresh_token (k.sha256_hex token) s.db).1.refresh_tokens)
        × ((handle_logout k i' r' token s).1.db.faults ≡ [])
  unfolding handle_logout audit_as add_audit_log delete_refresh_token
  logout_db i' r' = elim (Option-cases r'.claims) [
    | inl n ↦ rw (filled, n, none_fail) (refl, refl)
    | inr (c, e) ↦ rw (filled, e, none_fail) (refl, refl)
  ]

get_row :
    (h : String) (d : Db)
    → d.faults ≡ []
    → (get_refresh_token h d).0 ≡ ok (find (has_hash h) d.refresh_tokens)
unfolding get_refresh_token
get_row h d none_fail = rw none_fail refl

delete_keeps : (h : String) (d : Db) → d.faults ≡ [] → (delete_refresh_token h d).1.faults ≡ []
unfolding delete_refresh_token
delete_keeps h d none_fail = rw none_fail refl

module _ (k : Packages) (s : Server) (token : String) (none_fail : s.db.faults ≡ [])
    (filled : (token == "") ≡ false) where
  -- After a logout with a refresh token that is not empty, and no driver error, a refresh with it
  -- is refused with 401, whatever the two requests are and whenever they come.
  pub refresh-logout :
      (i i' : Inputs) (r r' : Request)
      → (handle_refresh k i' r' (some token) (handle_logout k i r token s).1).0.code ≡ 401
  refresh-logout i i' r r' =
      let s' = (handle_logout k i r token s).1 in
      let (rows, none_fail') = logout_db k i r s token none_fail filled i r in
      let h = k.sha256_hex token in
      let gone : (get_refresh_token h s'.db).0 ≡ ok none =
        get_row h s'.db none_fail'
        ∙ rw rows (sym (get_row h (delete_refresh_token h s.db).1 (delete_keeps h s.db none_fail)))
        ∙ get_refresh_token-delete s.db none_fail h h
        ∙ rw (beq_refl h) refl in
      (refresh_gone k i' r' s' token none_fail' filled gone).0

-- A login whose name and password are right, from an address that is not locked, while no
-- statement fails and both tokens can be signed.
pub record Accepted (k : Packages) (i : Inputs) (r : Request) (b : LoginBody) (s : Server)
    (u : User) (a t : String) : Type 0 where
  pub none_fail : s.db.faults ≡ []
  pub not_locked : (check_rate_limit (client_ip k r) i.now s.db).0 ≡ ok false
  pub by_name : (get_user_by_username b.username s.db).0 ≡ ok (some u)
  pub by_id : find (has_id u.id) s.db.users ≡ some u
  pub password : check_password k.bcrypt u.password_hash b.password ≡ true
  pub access_signed : issue_access_token k.jwt s.secret u.id u.role i.now ≡ ok a
  pub refresh_signed : issue_refresh_token k.jwt s.secret u.id i.now ≡ ok t

module _ (k : Packages) (i : Inputs) (r : Request) (b : LoginBody) (s : Server) (u : User)
    (a t : String) (acc : Accepted k i r b s u a t) where
  handle_login-accept : handle_login k i r (some b) s ≡ accept_login k i r u s
  handle_login-accept =
      handle_login_free k i r b s acc.none_fail (some u) acc.not_locked acc.by_name
      ∙ (unfold check_user in rw (acc.password) refl)

  -- A login with the right password from an address that is not locked, while no statement fails
  -- and both tokens are signed, answers 200 with them, stores the refresh token's hash for seven
  -- days, sets the time of the login and makes the address fresh.
  pub handle_login-LoggedIn :
      ((handle_login k i r (some b) s).0 ≡ json_ok (login a t 900))
      × LoggedIn k i r u t s (handle_login k i r (some b) s).1
  handle_login-LoggedIn = rw handle_login-accept (
      accept_login-LoggedIn k i r s acc.none_fail u a t acc.by_id acc.access_signed
        acc.refresh_signed)

  -- After a login with the right password from an address that is not locked, while no statement
  -- fails, a refresh with the token that the login answered is answered 200 with a new access token
  -- for the same user and role, until the token has expired. The token's hash was not in the table
  -- before, and the JWT package is sound and signs the new token.
  pub refresh-login :
      (i' : Inputs) (r' : Request) (a' : String)
      → IsSound k.jwt
      → (t == "") ≡ false
      → find (has_hash (k.sha256_hex t)) s.db.refresh_tokens ≡ none
      → i'.now < i.now + 604800
      → issue_access_token k.jwt s.secret u.id u.role i'.now ≡ ok a'
      → (handle_refresh k i' r' (some t) (handle_login k i r (some b) s).1).0
        ≡ json_ok (access a' 900)
  refresh-login i' r' a' sound filled new young signed =
      let l = handle_login-LoggedIn.1 in
      refresh_known k i' r' (handle_login k i r (some b) s).1 t l.none_fail filled
        (refresh_claims u.id i.now) (issued_row k i u t) (logged_in i.now u) a'
        (rw l.secret_kept (
          validate_token-issue_refresh_token k.jwt sound s.secret u.id t i.now i'.now
            acc.refresh_signed
          ∙ ground arith))
        (rw l.tokens (
          find-append (has_hash (k.sha256_hex t)) s.db.refresh_tokens (issued_row k i u t) new
            (beq_refl (k.sha256_hex t))))
        (ground arith) l.user (rw l.secret_kept signed)
