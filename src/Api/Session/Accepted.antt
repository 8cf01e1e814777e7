-- ===== src/Api/Session/Accepted.antt =====
-- handleLogin with the right password: what it answers and what it leaves in the tables.
use taildog.Prelude.{refl, ap, ℕ, ◌+◌, ◌≡◌, String, string_key, some, [], ◌∷◌, ◌++◌, ok}
use taildog.Db.{
  Db, Tables, reset_rows, User, RefreshToken, has_id, reset_rate_limit, update_last_login,
  store_refresh_token, add_audit_log,
}
use taildog.Db.Rows.{find, update}
use taildog.Db.Tokens.{find_id-update}
use taildog.Db.Lockout.{IsFresh, reset_rate_limit-IsFresh}
use taildog.Auth.{issue_access_token, issue_refresh_token}
use taildog.Api.{Packages, Inputs, Server, Request, json_ok, client_ip, audit_as, login}
use taildog.Api.Session.{accept_login, issue_refresh, finish_login}

abbrev pub logged_in : ℕ → User → User
logged_in now u = record u { last_login = some now }

-- The row that the login stores for its refresh token.
abbrev pub issued_row : Packages → Inputs → User → String → RefreshToken
issued_row k i u token = record {
  id = i.new_id;
  user_id = u.id;
  token_hash = k.sha256_hex token;
  expires_at = i.now + 604800;
  created_at = i.now;
}

-- The server after a login of `u` that answered the refresh token `token`.
pub record LoggedIn (k : Packages) (i : Inputs) (r : Request) (u : User) (token : String)
    (s s' : Server) : Type 0 where
  pub secret_kept : s'.secret ≡ s.secret
  pub none_fail : s'.db.faults ≡ []
  pub tokens : s'.db.refresh_tokens ≡ s.db.refresh_tokens ++ issued_row k i u token ∷ []
  pub user : find (has_id u.id) s'.db.users ≡ some (logged_in i.now u)
  pub fresh : IsFresh (client_ip k r) s'.db

-- The four statements of a login that succeeds, in order.
module _ (ip : String) (u : User) (now : ℕ) (id hash audit_id : String) where
  abbrev after_login : Db → Db
  after_login d =
      (add_audit_log audit_id now "LOGIN_SUCCESS" u.username "" ip
        (store_refresh_token id u.id hash (now + 604800) now
          (update_last_login u.id now (reset_rate_limit ip d).1).1).1).1

  abbrev updated : Tables → Db
  updated t = record {
    tables = record t {
      users = update (has_id u.id) (logged_in now) t.users;
      rate_limit = reset_rows ip t.rate_limit;
    };
    faults = [];
  }

  store_known :
      (t : Tables)
      → find (has_id u.id) t.users ≡ some u
      → store_refresh_token id u.id hash (now + 604800) now (updated t) ≡ (
        ok tt,
        record (updated t) {
          tables = record (updated t).tables {
            refresh_tokens =
                t.refresh_tokens
                ++ record {
                  id = id;
                  user_id = u.id;
                  token_hash = hash;
                  expires_at = now + 604800;
                  created_at = now;
                }
                  ∷ [];
          };
        },
      )
  unfolding store_refresh_token
  store_known t known = rw (find_id-update u.id (logged_in now) (λ x. refl) t.users u known) refl

  abbrev expected : Tables → Db
  expected t = record (updated t) {
    tables = record (updated t).tables {
      refresh_tokens =
          t.refresh_tokens
          ++ record {
            id = id;
            user_id = u.id;
            token_hash = hash;
            expires_at = now + 604800;
            created_at = now;
          }
            ∷ [];
      audit_log =
          t.audit_log
          ++ record {
            id = audit_id;
            timestamp = now;
            event_type = "LOGIN_SUCCESS";
            actor = u.username;
            detail = "";
            ip_address = ip;
          }
            ∷ [];
    };
  }

  after_login_tables :
      (d : Db)
      → d.faults ≡ []
      → find (has_id u.id) d.users ≡ some u
      → after_login d ≡ expected d.tables
  unfolding add_audit_log update_last_login reset_rate_limit
  after_login_tables d none_fail known = rw none_fail (
      ap (λ p. (add_audit_log audit_id now "LOGIN_SUCCESS" u.username "" ip p.1).1)
        (store_known d.tables known))

  after_login_lem :
      (d : Db)
      → d.faults ≡ []
      → find (has_id u.id) d.users ≡ some u
      → ((after_login d).faults ≡ [])
        × ((after_login d).refresh_tokens
            ≡ d.refresh_tokens
              ++ record {
                id = id;
                user_id = u.id;
                token_hash = hash;
                expires_at = now + 604800;
                created_at = now;
              }
                ∷ [])
        × (find (has_id u.id) (after_login d).users ≡ some (logged_in now u))
        × ((after_login d).rate_limit ≡ (reset_rate_limit ip d).1.rate_limit)
  unfolding reset_rate_limit
  after_login_lem d none_fail known = rw (after_login_tables d none_fail known) (
    refl,
    refl,
    find_id-update u.id (logged_in now) (λ x. refl) d.users u known,
    rw none_fail refl,
  )

module _ (k : Packages) (i : Inputs) (r : Request) (s : Server) (none_fail : s.db.faults ≡ []) where
  pub accept_login-LoggedIn :
      (u : User) (a t : String)
      → find (has_id u.id) s.db.users ≡ some u
      → issue_access_token k.jwt s.secret u.id u.role i.now ≡ ok a
      → issue_refresh_token k.jwt s.secret u.id i.now ≡ ok t
      → ((accept_login k i r u s).0 ≡ json_ok (login a t 900))
        × LoggedIn k i r u t s (accept_login k i r u s).1
  unfolding accept_login issue_refresh finish_login audit_as
  accept_login-LoggedIn u a t known ea et = rw (ea, issue_refresh, et) (refl, left)
    where
      left : LoggedIn k i r u t s (record s {
        db = after_login (client_ip k r) u i.now i.new_id (k.sha256_hex t) i.audit_id s.db;
      })
      left =
          let (a, b, c, e) =
            after_login_lem (client_ip k r) u i.now i.new_id (k.sha256_hex t) i.audit_id s.db
              none_fail known in
          record {
            secret_kept = refl;
            none_fail = a;
            tokens = b;
            user = c;
            fresh = rw e (reset_rate_limit-IsFresh (client_ip k r) s.db none_fail);
          }
