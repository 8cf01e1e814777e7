-- ===== src/Auth/Wizard.antt =====
-- RunWizard of relay/internal/auth/wizard.go: the first account. What is typed at the prompts is a
-- list of lines, trimmed as promptLine and promptPassword return them; a prompt past its end is the
-- read error. The banner and the last wait for Enter are not modelled.
use taildog.Prelude.{
  refl, codes, beq_refl, ◌++◌, ℕ, ◌≡◌, String, Bool, true, false, string_key, ◌==◌, Option, none,
  some, List, [], ◌∷◌, arith, Result, ok, err, if◌then◌else◌, Bool-cases, inl, inr,
}
use taildog.Db.{Db, create_user}
use taildog.Auth.{Bcrypt, hash_password, AuthError}
use taildog.Auth.Password.{Unicode, validate_password, matches_username}

pub data WizardError : Type 0 where
  input_closed hash_failed create_failed : WizardError

abbrev is_ok {ℓ κ} : {E : Type ℓ} {A : Type κ} → Result E A → Bool
is_ok (ok a) = true
is_ok (err e) = false

-- The first loop: until a line matches.
unfoldable pub ask_username : List String → Option String
ask_username [] = none
ask_username (u ∷ rest) =
    let again = ask_username rest in if matches_username (codes u) then some u else again

abbrev pub accepts : Unicode → String → Bool
accepts u p = is_ok (validate_password u (codes p))

-- The second loop: a password that is accepted, and typed twice.
unfoldable pub ask_password : Unicode → List String → Option String
ask_password u [] = none
ask_password u (p ∷ []) = none
ask_password u (p ∷ c ∷ rest) =
    let again = ask_password u (c ∷ rest) in
    let skip_both = ask_password u rest in
    if accepts u p then (if p == c then some p else skip_both) else again

abbrev save_account :
    String → ℕ → String → Result AuthError String → Db → Result WizardError (Unit {0}) × Db
save_account id now name (err e) d = (err hash_failed, d)
save_account id now name (ok hash) d = elim (create_user id name hash "admin" now d).0 [
  | ok _ ↦ (ok tt, (create_user id name hash "admin" now d).1)
  | err _ ↦ (err create_failed, (create_user id name hash "admin" now d).1)
]

abbrev with_password :
    Bcrypt → String → ℕ → String → Option String → Db → Result WizardError (Unit {0}) × Db
with_password b id now name none d = (err input_closed, d)
with_password b id now name (some p) d = save_account id now name (hash_password b p) d

abbrev with_username :
    Unicode
    → Bcrypt
    → String
    → ℕ
    → Option String
    → List String
    → Db
    → Result WizardError (Unit {0}) × Db
with_username u b id now none passwords d = (err input_closed, d)
with_username u b id now (some name) passwords d =
    with_password b id now name (ask_password u passwords) d

unfoldable pub run_wizard :
    Unicode
    → Bcrypt
    → String
    → ℕ
    → List String
    → List String
    → Db
    → Result WizardError (Unit {0}) × Db
run_wizard u b id now names passwords d = with_username u b id now (ask_username names) passwords d

matches-ask_username :
    (names : List String) (name : String)
    → ask_username names ≡ some name
    → matches_username (codes name) ≡ true
unfolding ask_username
matches-ask_username [] name e = cc
matches-ask_username (x ∷ xs) name e = elim (Bool-cases (matches_username (codes x))) [
  | inl t ↦ let s : x ≡ name = ground arith in rw (← s) t
  | inr f ↦ matches-ask_username xs name (ground arith)
]

accepts-ask_password :
    (u : Unicode) (ps : List String) (p : String) → ask_password u ps ≡ some p → accepts u p ≡ true
unfolding ask_password
accepts-ask_password u [] p e = cc
accepts-ask_password u (x ∷ []) p e = cc
accepts-ask_password u (x ∷ c ∷ rest) p e = elim (Bool-cases (accepts u x)) [
  | inl t ↦ elim (Bool-cases (x == c)) [
    | inl s ↦ let q : x ≡ p = ground arith in rw (← q) t
    | inr n ↦ accepts-ask_password u rest p (ground arith)
  ]
  | inr f ↦ accepts-ask_password u (c ∷ rest) p (ground arith)
]

-- The account that a run of the wizard, with the result `r`, has created.
abbrev Created : Unicode → Bcrypt → String → ℕ → Db → Result WizardError (Unit {0}) × Db → Type 0
Created u b id now d r =
    (name : String) × (password : String) × (hash : String) × (matches_username (codes name) ≡ true)
    × (accepts u password ≡ true)
    × (hash_password b password ≡ ok hash)
    × ((create_user id name hash "admin" now d).0 ≡ ok tt)
    × (r.1 ≡ (create_user id name hash "admin" now d).1)

module _ (u : Unicode) (b : Bcrypt) (id : String) (now : ℕ) (d : Db) where
  with_password-Created :
      (name p : String) (h : Result AuthError String)
      → matches_username (codes name) ≡ true
      → accepts u p ≡ true
      → hash_password b p ≡ h
      → (save_account id now name h d).0 ≡ ok tt
      → Created u b id now d (save_account id now name h d)
  with_password-Created name p (err x) m a q e = cc
  with_password-Created name p (ok hash) m a q e =
      (name, p, hash, m, a, q, ground arith, ground arith)

  with_username-Created :
      (name : String) (o : Option String) (passwords : List String)
      → matches_username (codes name) ≡ true
      → ask_password u passwords ≡ o
      → (with_password b id now name o d).0 ≡ ok tt
      → Created u b id now d (with_password b id now name o d)
  with_username-Created name none passwords m q e = cc
  with_username-Created name (some p) passwords m q e =
      with_password-Created name p (hash_password b p) m (accepts-ask_password u passwords p q) refl
        e

  run_Created :
      (names passwords : List String) (o : Option String)
      → ask_username names ≡ o
      → (with_username u b id now o passwords d).0 ≡ ok tt
      → Created u b id now d (with_username u b id now o passwords d)
  run_Created names passwords none q e = cc
  run_Created names passwords (some name) q e =
      with_username-Created name (ask_password u passwords) passwords
        (matches-ask_username names name q) refl e

-- If the wizard ends well, one account was created: an admin, under a name that matches the
-- pattern, with the hash of a password that the complexity rules accept.
pub run_wizard_lem :
    (u : Unicode) (b : Bcrypt) (id : String) (now : ℕ) (names passwords : List String) (d : Db)
    → (run_wizard u b id now names passwords d).0 ≡ ok tt
    → (name : String) × (password : String) × (hash : String) × (matches_username (codes name)
        ≡ true)
      × (accepts u password ≡ true)
      × (hash_password b password ≡ ok hash)
      × ((create_user id name hash "admin" now d).0 ≡ ok tt)
      × ((run_wizard u b id now names passwords d).1 ≡ (create_user id name hash "admin" now d).1)
unfolding run_wizard
run_wizard_lem u b id now names passwords d e =
    run_Created u b id now d names passwords (ask_username names) refl e

-- Lines that are asked for again.
abbrev pub AllRefused : (String → Bool) → List String → Type 0
AllRefused f [] = Unit {0}
AllRefused f (x ∷ xs) = (f x ≡ false) × AllRefused f xs

ask_username-append :
    (refused : List String) (name : String) (rest : List String)
    → AllRefused (λ x. matches_username (codes x)) refused
    → matches_username (codes name) ≡ true
    → ask_username (refused ++ name ∷ rest) ≡ some name
unfolding ask_username
ask_username-append [] name rest a t = rw t refl
ask_username-append (x ∷ xs) name rest a t = rw a.0 (ask_username-append xs name rest a.1 t)

ask_password-append :
    (u : Unicode) (refused : List String) (p : String) (rest : List String)
    → AllRefused (accepts u) refused
    → accepts u p ≡ true
    → ask_password u (refused ++ p ∷ p ∷ rest) ≡ some p
unfolding ask_password
ask_password-append u [] p rest a t = rw t (rw (beq_refl p) refl)
ask_password-append u (x ∷ []) p rest a t = rw (a.0) (ask_password-append u [] p rest tt t)
ask_password-append u (x ∷ y ∷ xs) p rest a t =
    rw (a.0) (ask_password-append u (y ∷ xs) p rest a.1 t)

-- The wizard ends well, whatever refused names and passwords came before, as soon as a name that
-- matches the pattern was typed and then twice a password that the rules accept, where bcrypt
-- hashes it and the account can be stored; the account has that name and hash, and the role admin.
pub run_wizard_creates :
    (u : Unicode) (b : Bcrypt) (id : String) (now : ℕ) (d : Db)
    (bad_names more_names bad_passwords more_passwords : List String) (name password hash : String)
    → AllRefused (λ x. matches_username (codes x)) bad_names
    → matches_username (codes name) ≡ true
    → AllRefused (accepts u) bad_passwords
    → accepts u password ≡ true
    → hash_password b password ≡ ok hash
    → (create_user id name hash "admin" now d).0 ≡ ok tt
    → run_wizard u b id now
        (bad_names ++ name ∷ more_names)
        (bad_passwords ++ password ∷ password ∷ more_passwords)
        d
      ≡ (ok tt, (create_user id name hash "admin" now d).1)
unfolding run_wizard
run_wizard_creates u b id now d bad_names more_names bad_passwords more_passwords name password hash
      an tn ap tp h c =
    rw (ask_username-append bad_names name more_names an tn) (
      rw (ask_password-append u bad_passwords password more_passwords ap tp)
        (rw h (rw (save_account, c) refl)))
