-- ===== src/Db.antt =====
-- relay/internal/db/db.go: the tables of the relay and the SQL statements over them.
--
-- A table is the list of its rows, oldest first. Times are seconds; the identifiers that package uuid
-- makes are arguments. Any statement may fail in the driver: `faults` says for the next statements
-- whether they do, and a statement that fails changes nothing.
pub mod Rows
pub mod Tokens
pub mod Lockout
pub mod AuditLog
pub mod Samples
use taildog.Prelude.{
  ℕ, ◌+◌, String, Bool, true, false, not, string_key, nat_key, ◌==◌, Option, none, some, List, [],
  ◌∷◌, ◌++◌, map, Result, ok, err, if◌then◌else◌, keep, leb, ltb, take, is_some,
}
use taildog.Dict.{Dict, get, put}
use Rows.{find, update, sort_desc}

pub record User : Type 0 where
  pub id : String
  pub username : String
  pub password_hash : String
  pub role : String
  pub created_at : ℕ
  pub last_login : Option ℕ

pub record RefreshToken : Type 0 where
  pub id : String
  pub user_id : String
  pub token_hash : String
  pub expires_at : ℕ
  pub created_at : ℕ

-- A row of rate_limit; `ip` is unique, and is the key.
pub record RateLimit : Type 0 where
  pub attempts : ℕ
  pub locked_until : Option ℕ
  pub last_attempt : Option ℕ

pub record AuditEntry : Type 0 where
  pub id : String
  pub timestamp : ℕ
  pub event_type : String
  pub actor : String
  pub detail : String
  pub ip_address : String

pub record Tables : Type 0 where
  pub users : List User
  pub refresh_tokens : List RefreshToken
  pub rate_limit : Dict String RateLimit
  pub audit_log : List AuditEntry
  pub canvas_state : Option String

pub record Db : Type 0 where
  pub tables : Tables
  pub open tables use *
  pub faults : List Bool

pub data DbError : Type 0 where
  driver constraint : DbError

-- One statement of the driver: its outcome by `faults`, and what it does to the tables.
abbrev pub exec : (Tables → Tables) → Db → Result DbError (Unit {0}) × Db
exec f d = elim d.faults [
  | [] ↦ (ok tt, record d { tables = f d.tables })
  | true ∷ rest ↦ (err driver, record d { faults = rest })
  | false ∷ rest ↦ (ok tt, record { tables = f d.tables; faults = rest })
]

abbrev pub query {ℓ} : {A : Type ℓ} → (Tables → A) → Db → Result DbError A × Db
query f d = elim d.faults [
  | [] ↦ (ok (f d.tables), d)
  | true ∷ rest ↦ (err driver, record d { faults = rest })
  | false ∷ rest ↦ (ok (f d.tables), record d { faults = rest })
]

-- An insert that the constraint `bad` refuses.
abbrev pub insert_unless : (Tables → Bool) → (Tables → Tables) → Db → Result DbError (Unit {0}) × Db
insert_unless bad f d = if bad d.tables then (err constraint, (exec (λ t. t) d).1) else exec f d

unfoldable pub is_first_run : Db → Result DbError Bool × Db
is_first_run = query λ t. elim t.users [ [] ↦ true | _ ∷ _ ↦ false ]

abbrev pub has_username : String → User → Bool
has_username name u = u.username == name

abbrev pub has_id : String → User → Bool
has_id id u = u.id == id

unfoldable pub create_user :
    String → String → String → String → ℕ → Db → Result DbError (Unit {0}) × Db
unfolding find
create_user id username hash role now =
    insert_unless (λ t. is_some (find (has_username username) t.users))
      λ t. record t {
        users =
            t.users
            ++ record {
              id = id;
              username = username;
              password_hash = hash;
              role = role;
              created_at = now;
              last_login = none;
            }
              ∷ [];
      }

unfoldable pub get_user_by_username : String → Db → Result DbError (Option User) × Db
unfolding find
get_user_by_username name = query λ t. find (has_username name) t.users

unfoldable pub get_user_by_id : String → Db → Result DbError (Option User) × Db
unfolding find
get_user_by_id id = query λ t. find (has_id id) t.users

unfoldable pub update_last_login : String → ℕ → Db → Result DbError (Unit {0}) × Db
unfolding update
update_last_login id now =
    exec
      λ t. record t { users = update (has_id id) (λ u. record u { last_login = some now }) t.users }

unfoldable pub update_user_password : String → String → Db → Result DbError (Unit {0}) × Db
unfolding update
update_user_password id hash =
    exec
      λ t. record t { users = update (has_id id) (λ u. record u { password_hash = hash }) t.users }

abbrev pub has_hash : String → RefreshToken → Bool
has_hash h t = t.token_hash == h

-- The foreign key wants a user with that id.
unfoldable pub store_refresh_token :
    String → String → String → ℕ → ℕ → Db → Result DbError (Unit {0}) × Db
unfolding find
store_refresh_token id user_id hash expires_at now =
    insert_unless (λ t. not (is_some (find (has_id user_id) t.users)))
      λ t. record t {
        refresh_tokens =
            t.refresh_tokens
            ++ record {
              id = id;
              user_id = user_id;
              token_hash = hash;
              expires_at = expires_at;
              created_at = now;
            }
              ∷ [];
      }

unfoldable pub get_refresh_token : String → Db → Result DbError (Option RefreshToken) × Db
unfolding find
get_refresh_token h = query λ t. find (has_hash h) t.refresh_tokens

unfoldable pub delete_refresh_token : String → Db → Result DbError (Unit {0}) × Db
delete_refresh_token h =
    exec λ t. record t { refresh_tokens = keep (λ r. not (has_hash h r)) t.refresh_tokens }

unfoldable pub delete_all_refresh_tokens : String → Db → Result DbError (Unit {0}) × Db
delete_all_refresh_tokens user_id =
    exec λ t. record t { refresh_tokens = keep (λ r. not (r.user_id == user_id)) t.refresh_tokens }

abbrev pub locked_row : ℕ → Option RateLimit → Bool
locked_row now none = false
locked_row now (some r) = elim r.locked_until [ none ↦ false | some t ↦ ltb now t ]

unfoldable pub check_rate_limit : String → ℕ → Db → Result DbError Bool × Db
check_rate_limit ip now = query λ t. locked_row now (get ip t.rate_limit)

-- The upsert: a new row has one attempt; `attempts + 1` of an old row locks it from 5 on.
abbrev pub failed_row : ℕ → Option RateLimit → RateLimit
failed_row now none = record { attempts = 1; locked_until = none; last_attempt = some now }
failed_row now (some r) = record {
  attempts = r.attempts + 1;
  locked_until = if leb 5 (r.attempts + 1) then some (now + 600) else r.locked_until;
  last_attempt = some now;
}

unfoldable pub record_failed_attempt : String → ℕ → Db → Result DbError (Unit {0}) × Db
record_failed_attempt ip now =
    exec λ t. record t { rate_limit = put ip (failed_row now (get ip t.rate_limit)) t.rate_limit }

abbrev pub reset_rows : String → Dict String RateLimit → Dict String RateLimit
reset_rows ip m = elim (get ip m) [
  | none ↦ m
  | some r ↦ put ip (record r { attempts = 0; locked_until = none }) m
]

unfoldable pub reset_rate_limit : String → Db → Result DbError (Unit {0}) × Db
reset_rate_limit ip = exec λ t. record t { rate_limit = reset_rows ip t.rate_limit }

unfoldable pub add_audit_log :
    String → ℕ → String → String → String → String → Db → Result DbError (Unit {0}) × Db
add_audit_log id now event_type actor detail ip = exec λ t. record t {
  audit_log =
      t.audit_log
      ++ record {
        id = id;
        timestamp = now;
        event_type = event_type;
        actor = actor;
        detail = detail;
        ip_address = ip;
      }
        ∷ [];
}

unfoldable pub get_canvas_state : Db → Result DbError String × Db
get_canvas_state = query λ t. elim t.canvas_state [ none ↦ "{}" | some s ↦ s ]

unfoldable pub save_canvas_state : String → Db → Result DbError (Unit {0}) × Db
save_canvas_state state =
    exec λ t. record t { canvas_state = elim t.canvas_state [ none ↦ none | some _ ↦ some state ] }

-- ORDER BY timestamp DESC LIMIT n; rows of one time in the order of insertion.
unfoldable pub get_audit_log : ℕ → Db → Result DbError (List AuditEntry) × Db
unfolding sort_desc
get_audit_log limit = query λ t. take limit (sort_desc (λ e. e.timestamp) t.audit_log)
