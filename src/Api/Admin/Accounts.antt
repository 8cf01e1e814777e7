-- ===== src/Api/Admin/Accounts.antt =====
-- handleChangePassword and handleRevokeAllSessions.
use taildog.Prelude.{
  codes, refl, ◌≡◌, inl, inr, String, true, false, string_key, some, [], arith, ok, err, ltb,
  Bool-cases, Result-cases,
}
use taildog.Auth.Password.{byte_len}
use taildog.Db.{User, has_id, get_user_by_id, update_user_password, add_audit_log}
use taildog.Db.Rows.{find}
use taildog.Db.Tokens.{find_id-update}
use taildog.Auth.{Bcrypt, HashesMatch, Claims, AuthError, check_password, hash_password}
use taildog.Api.{Packages, Inputs, Server, Request, Response, json_error, json_ok, audit_as, status}
use taildog.Api.Admin.{
  PasswordBody, handle_change_password, change_for, save_password, password_saved,
}

-- Without a driver error, ChangePassword for a known user answers: 401 if the current
-- password is wrong, 400 if the new one has less than 12 bytes, and otherwise 200 where bcrypt hashes it.
-- Only the last changes a row: the user's hash is then one that accepts the new password.
pub data ChangeOutcome (k : Packages) (u : User) (b : PasswordBody) (s : Server) (res : Response)
    (s' : Server) : Type 0 where
  wrong :
      check_password k.bcrypt u.password_hash b.current_password ≡ false
      → res ≡ json_error 401 "current password incorrect"
      → s'.db.tables ≡ s.db.tables
      → ChangeOutcome k u b s res s'
  short :
      check_password k.bcrypt u.password_hash b.current_password ≡ true
      → ltb (byte_len (codes b.new_password)) 12 ≡ true
      → res ≡ json_error 400 "new password too short (min 12 chars)"
      → s'.db.tables ≡ s.db.tables
      → ChangeOutcome k u b s res s'
  unhashed :
      (e : AuthError)
      → hash_password k.bcrypt b.new_password ≡ err e
      → res ≡ json_error 500 "hash error"
      → s'.db.tables ≡ s.db.tables
      → ChangeOutcome k u b s res s'
  changed :
      (hash : String)
      → check_password k.bcrypt u.password_hash b.current_password ≡ true
      → ltb (byte_len (codes b.new_password)) 12 ≡ false
      → res ≡ json_ok (status "ok")
      → find (has_id u.id) s'.db.users ≡ some (record u { password_hash = hash })
      → check_password k.bcrypt hash b.new_password ≡ true
      → s'.db.refresh_tokens ≡ s.db.refresh_tokens
      → ChangeOutcome k u b s res s'

accepted :
    (k : Bcrypt) (password : String)
    → HashesMatch k
    → (hash : String) → hash_password k password ≡ ok hash
    → check_password k hash password ≡ true
unfolding hash_password check_password
accepted k password match hash hashed = match.compare_generated password hash (ground arith)

module _ (k : Packages) (i : Inputs) (r : Request) (c : Claims) (b : PasswordBody)
    (s : Server) where
  look_up :
      (u : User)
      → s.db.faults ≡ []
      → c.user_id ≡ u.id
      → find (has_id u.id) s.db.users ≡ some u
      → handle_change_password k i r c (some b) s ≡ change_for k i r b (ok (some u)) s
  unfolding handle_change_password get_user_by_id
  look_up u none_fail own known = rw (own, none_fail) (rw known refl)

  save_password_lem :
      (u : User) (hash : String)
      → s.db.faults ≡ []
      → find (has_id u.id) s.db.users ≡ some u
      → ((save_password k i r u (ok hash) s).0 ≡ json_ok (status "ok"))
        × (find (has_id u.id) (save_password k i r u (ok hash) s).1.db.users
            ≡ some (record u { password_hash = hash }))
        × ((save_password k i r u (ok hash) s).1.db.refresh_tokens ≡ s.db.refresh_tokens)
  unfolding save_password password_saved update_user_password audit_as add_audit_log
  save_password_lem u hash none_fail known =
      let found =
        find_id-update u.id (λ x. record x { password_hash = hash }) (λ x. refl) s.db.users u
          known in
      rw none_fail (refl, found, refl)

  change_for_lem :
      (u : User)
      → HashesMatch k.bcrypt
      → s.db.faults ≡ []
      → find (has_id u.id) s.db.users ≡ some u
      → ChangeOutcome k u b s
          (change_for k i r b (ok (some u)) s).0
          (change_for k i r b (ok (some u)) s).1
  unfolding change_for save_password
  change_for_lem u match none_fail known =
      elim (Bool-cases (check_password k.bcrypt u.password_hash b.current_password)) [
        | inr bad ↦ rw bad (wrong bad refl refl)
        | inl good ↦ elim (Bool-cases (ltb (byte_len (codes b.new_password)) 12)) [
          | inl few ↦ rw (good, few) (short good few refl refl)
          | inr many ↦ elim (Result-cases (hash_password k.bcrypt b.new_password)) [
            | inl (e, failed) ↦ rw (good, many, failed) (unhashed e failed refl refl)
            | inr (hash, hashed) ↦
                let (answer, found, tokens) = save_password_lem u hash none_fail known in
                rw (good, many, hashed)
                  (changed hash good many answer found
                    (accepted k.bcrypt b.new_password match hash hashed) tokens)
          ]
        ]
      ]

  -- For a known user and with no driver error, a change of the password answers 401 if the current
  -- one is wrong and 400 if the new one has less than twelve bytes; it answers 500 if it cannot be
  -- hashed and otherwise 200, and only then the user's hash changes, to one that accepts the new
  -- password. The refresh tokens stay.
  pub handle_change_password-ChangeOutcome :
      (u : User)
      → HashesMatch k.bcrypt
      → s.db.faults ≡ []
      → c.user_id ≡ u.id
      → find (has_id u.id) s.db.users ≡ some u
      → ChangeOutcome k u b s
          (handle_change_password k i r c (some b) s).0
          (handle_change_password k i r c (some b) s).1
  handle_change_password-ChangeOutcome u match none_fail own known =
      rw (look_up u none_fail own known) (change_for_lem u match none_fail known)
