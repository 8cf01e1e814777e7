-- ===== src/Db/Samples.antt =====
-- A database with one user and one session, and each theorem at an input.
use mathlib.Core.List.{Perm}
use taildog.Prelude.{
  refl, ℕ, ◌≡◌, String, true, false, string_key, nat_key, none, some, List, [], ◌∷◌, ok, take,
}
use taildog.Dict.{get, put}
use taildog.Db.{
  Db, User, RefreshToken, AuditEntry, check_rate_limit, record_failed_attempt, get_audit_log,
}
use taildog.Db.Lockout.{failures, lockout_exact}
use taildog.Db.AuditLog.{get_audit_log_newest, IsDescending, time}

abbrev pub ada : User
ada = record {
  id = "u1";
  username = "ada";
  password_hash = "Abcdefgh-123";
  role = "admin";
  created_at = 900;
  last_login = none;
}

abbrev pub phone : RefreshToken
phone = record {
  id = "r1";
  user_id = "u1";
  token_hash = "hash-1";
  expires_at = 605700;
  created_at = 900;
}

abbrev entry : String → ℕ → AuditEntry
entry id at = record {
  id = id;
  timestamp = at;
  event_type = "LOGIN_SUCCESS";
  actor = "ada";
  detail = "";
  ip_address = "10.0.0.7";
}

abbrev pub one_user : Db
one_user = record {
  tables = record {
    users = ada ∷ [];
    refresh_tokens = phone ∷ [];
    rate_limit = [];
    audit_log = entry "a1" 900 ∷ entry "a2" 950 ∷ [];
    canvas_state = some "{}";
  };
  faults = [];
}

five_failures_lock :
    (check_rate_limit "10.0.0.9" 1603
      (failures "10.0.0.9" (1000 ∷ 1001 ∷ 1002 ∷ 1003 ∷ 1004 ∷ []) one_user)).0
    ≡ ok true
unfolding check_rate_limit failures record_failed_attempt get put
five_failures_lock = refl

lockout_exact_example :
    (check_rate_limit "10.0.0.9" 1604
      (failures "10.0.0.9" (1000 ∷ 1001 ∷ 1002 ∷ 1003 ∷ 1004 ∷ []) one_user)).0
    ≡ ok false
unfolding get
lockout_exact_example =
    lockout_exact "10.0.0.9" one_user 1000 (1001 ∷ 1002 ∷ 1003 ∷ 1004 ∷ []) 1604 refl (refl, refl)

get_audit_log_newest_example :
    (rows : List AuditEntry) × Perm rows one_user.audit_log
    × IsDescending time rows
    × ((get_audit_log 1 one_user).0 ≡ ok (take 1 rows))
get_audit_log_newest_example = get_audit_log_newest one_user 1 refl
