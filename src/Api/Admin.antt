-- ===== src/Api/Admin.antt =====
-- The canvas and admin handlers of relay/internal/api/handlers.go.
pub mod Accounts
use taildog.Prelude.{
  codes, ℕ, ℤ, pos, negsuc, ◌+◌, String, Bool, true, false, ◌||◌, string_key, ◌==◌, Option, none,
  some, List, [], ◌∷◌, Result, ok, err, if◌then◌else◌, ltb,
}
use taildog.Auth.Password.{byte_len}
use taildog.Db.{
  Db, DbError, User, AuditEntry, get_canvas_state, save_canvas_state, get_audit_log, get_user_by_id,
  update_user_password, delete_all_refresh_tokens,
}
use taildog.Auth.{Claims, AuthError, check_password, hash_password}
use taildog.Api.{
  Packages, Inputs, Server, Request, Response, Body, json_error, json_ok, with_db, audit_as, status,
  canvas, audit, empty,
}

pub record PasswordBody : Type 0 where
  pub current_password : String
  pub new_password : String

canvas_of : Result DbError String → Response
canvas_of (ok state) = json_ok (canvas state)
canvas_of (err e) = json_error 500 "failed to load canvas state"

unfoldable pub handle_get_canvas : Server → Response × Server
unfolding canvas_of
handle_get_canvas s = let call = with_db s get_canvas_state in (canvas_of call.0, call.1)

saved_of : Result DbError (Unit {0}) → Response
saved_of (ok _) = record { code = 204; body = empty }
saved_of (err e) = json_error 500 "save failed"

-- The body up to 2 MB, `none` where it cannot be read, and whether json.Unmarshal takes it.
unfoldable pub handle_save_canvas : Option (String × Bool) → Server → Response × Server
unfolding saved_of
handle_save_canvas none s = (json_error 400 "read error", s)
handle_save_canvas (some (body, false)) s = (json_error 400 "invalid JSON", s)
handle_save_canvas (some (body, true)) s =
    let call = with_db s (save_canvas_state body) in (saved_of call.0, call.1)

-- The query's limit as strconv.Atoi reads it; 100 where it is missing, no number or not positive.
abbrev pub limit_of : Option ℤ → ℕ
limit_of none = 100
limit_of (some (negsuc n)) = 100
limit_of (some (pos n)) = if ltb 0 n then n else 100

entries_of : Result DbError (List AuditEntry) → Response
entries_of (ok entries) = json_ok (audit entries)
entries_of (err e) = json_error 500 "db error"

unfoldable pub handle_audit_log : Option ℤ → Server → Response × Server
unfolding entries_of
handle_audit_log limit s =
    let call = with_db s (get_audit_log (limit_of limit)) in (entries_of call.0, call.1)

module _ (k : Packages) (i : Inputs) (r : Request) where
  unfoldable pub password_saved : User → Result DbError (Unit {0}) → Server → Response × Server
  unfolding audit_as
  password_saved u (err e) s = (json_error 500 "db error", s)
  password_saved u (ok _) s =
      (json_ok (status "ok"), audit_as k i r "PASSWORD_CHANGED" u.username "" s)

  unfoldable pub save_password : User → Result AuthError String → Server → Response × Server
  unfolding password_saved
  save_password u (err e) s = (json_error 500 "hash error", s)
  save_password u (ok hash) s =
      let call = with_db s (update_user_password u.id hash) in password_saved u call.0 call.1

  unfoldable pub change_for :
      PasswordBody → Result DbError (Option User) → Server → Response × Server
  unfolding save_password
  change_for b (err e) s = (json_error 404 "user not found", s)
  change_for b (ok none) s = (json_error 404 "user not found", s)
  change_for b (ok (some u)) s =
      if check_password k.bcrypt u.password_hash b.current_password
      then (if ltb (byte_len (codes b.new_password)) 12
          then (json_error 400 "new password too short (min 12 chars)", s)
          else save_password u (hash_password k.bcrypt b.new_password) s)
      else (json_error 401 "current password incorrect", s)

  unfoldable pub handle_change_password : Claims → Option PasswordBody → Server → Response × Server
  unfolding change_for
  handle_change_password c none s = (json_error 400 "invalid body", s)
  handle_change_password c (some b) s =
      let call = with_db s (get_user_by_id c.user_id) in change_for b call.0 call.1

  unfoldable pub revoked : Claims → Result DbError (Unit {0}) → Server → Response × Server
  unfolding audit_as
  revoked c (err e) s = (json_error 500 "db error", s)
  revoked c (ok _) s = (json_ok (status "ok"), audit_as k i r "REVOKE_ALL_SESSIONS" c.user_id "" s)

  unfoldable pub handle_revoke_all_sessions : Claims → Server → Response × Server
  unfolding revoked
  handle_revoke_all_sessions c s =
      let call = with_db s (delete_all_refresh_tokens c.user_id) in revoked c call.0 call.1
