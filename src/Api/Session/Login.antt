-- ===== src/Api/Session/Login.antt =====
-- handleLogin: the lockout stands before everything else, and what a login with the right password leaves.
use taildog.Prelude.{
  refl, ◌∙◌, ℕ, ◌+◌, ◌<◌, ◌≤◌, ◌≡◌, String, true, false, not, string_key, Option, none, some, List,
  [], ◌∷◌, arith, ok, length,
}
use taildog.Db.{
  Db, User, check_rate_limit, record_failed_attempt, get_user_by_username, add_audit_log,
}
use taildog.Db.Lockout.{failures, last_or, IsFresh, lockout_exact}
use taildog.Auth.{check_password}
use taildog.Api.{Packages, Inputs, Server, Request, json_error, client_ip, audit_as}
use taildog.Api.Session.{LoginBody, handle_login, look_up_user, fail_login, check_user}

query_keeps :
    (k : Packages) (i : Inputs) (r : Request) (d : Db)
    → (check_rate_limit (client_ip k r) i.now d).1.tables ≡ d.tables
unfolding check_rate_limit
query_keeps k i r d = ground arith

module _ (k : Packages) (i : Inputs) (r : Request) (b : LoginBody) where
  -- A locked address is refused before the user is looked up, and only the statement that asked
  -- for the lock ran.
  handle_login_locked :
      (s : Server)
      → (check_rate_limit (client_ip k r) i.now s.db).0 ≡ ok true
      → handle_login k i r (some b) s ≡ (
        json_error 429 "too many failed attempts — try again later",
        record s { db = (check_rate_limit (client_ip k r) i.now s.db).1 },
      )
  unfolding handle_login
  handle_login_locked s e = rw e refl

  -- After five failed attempts or more from an address that was fresh, less than ten minutes after
  -- the last, and with no driver error, a login from there is answered 429 with every table as it
  -- was, whatever the name and the password.
  pub login_locked_out :
      (s : Server) (t : ℕ) (ts : List ℕ)
      → s.db.faults ≡ []
      → IsFresh (client_ip k r) s.db
      → 4 ≤ length ts
      → i.now < last_or t ts + 600
      → let s' = record s { db = failures (client_ip k r) (t ∷ ts) s.db } in
        ((handle_login k i r (some b) s').0.code ≡ 429)
        × ((handle_login k i r (some b) s').1.db.tables ≡ s'.db.tables)
  login_locked_out s t ts e f many soon =
      let s' = record s { db = failures (client_ip k r) (t ∷ ts) s.db } in
      let locked : (check_rate_limit (client_ip k r) i.now s'.db).0 ≡ ok true =
        lockout_exact (client_ip k r) s.db t ts i.now e f ∙ ground arith in
      rw (handle_login_locked s' locked) (refl, query_keeps k i r s'.db)

-- A login that fails for the name or the password counts one attempt against the address, and
-- answers the same for both.
module _ (k : Packages) (i : Inputs) (r : Request) (b : LoginBody) (s : Server)
    (none_fail : s.db.faults ≡ []) where
  free_keeps : (check_rate_limit (client_ip k r) i.now s.db).1 ≡ s.db
  unfolding check_rate_limit
  free_keeps = rw none_fail refl

  lookup_keeps : (get_user_by_username b.username s.db).1 ≡ s.db
  unfolding get_user_by_username
  lookup_keeps = rw none_fail refl

  pub handle_login_free :
      (found : Option User)
      → (check_rate_limit (client_ip k r) i.now s.db).0 ≡ ok false
      → (get_user_by_username b.username s.db).0 ≡ ok found
      → handle_login k i r (some b) s ≡ check_user k i r b (ok found) s
  unfolding handle_login look_up_user
  handle_login_free found free q = rw (free, free_keeps, q, lookup_keeps) refl

  fail_login_lem :
      (msg : String)
      → ((fail_login k i r b msg s).0 ≡ json_error 401 "invalid credentials")
        × ((fail_login k i r b msg s).1.db.rate_limit
            ≡ (record_failed_attempt (client_ip k r) i.now s.db).1.rate_limit)
        × ((fail_login k i r b msg s).1.db.refresh_tokens ≡ s.db.refresh_tokens)
        × ((fail_login k i r b msg s).1.db.users ≡ s.db.users)
  unfolding fail_login audit_as add_audit_log record_failed_attempt
  fail_login_lem msg = rw none_fail (refl, refl, refl, refl)

  -- Without a driver error and from an address that is not locked, a login with an unknown name or
  -- a wrong password answers the same 401, counts one attempt of the address, and leaves users and
  -- refresh tokens alone.
  pub login_wrong :
      (found : Option User)
      → (check_rate_limit (client_ip k r) i.now s.db).0 ≡ ok false
      → (get_user_by_username b.username s.db).0 ≡ ok found
      → elim found [
        | none ↦ true
        | some u ↦ not (check_password k.bcrypt u.password_hash b.password)
      ]
        ≡ true
      → ((handle_login k i r (some b) s).0 ≡ json_error 401 "invalid credentials")
        × ((handle_login k i r (some b) s).1.db.rate_limit
            ≡ (record_failed_attempt (client_ip k r) i.now s.db).1.rate_limit)
        × ((handle_login k i r (some b) s).1.db.refresh_tokens ≡ s.db.refresh_tokens)
        × ((handle_login k i r (some b) s).1.db.users ≡ s.db.users)
  unfolding check_user
  login_wrong none free q bad = rw (handle_login_free none free q) (fail_login_lem "user not found")
  login_wrong (some u) free q bad =
      let wrong : check_password k.bcrypt u.password_hash b.password ≡ false = ground arith in
      rw (handle_login_free (some u) free q, check_user, wrong) (fail_login_lem "wrong password")
