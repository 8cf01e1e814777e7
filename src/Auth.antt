-- ===== src/Auth.antt =====
-- relay/internal/auth/auth.go: tokens, the signing secret and password hashes.
--
-- The JWT and bcrypt packages are parameters. Times are seconds; a secret is its bytes.
pub mod Tokens
pub mod Secret
pub mod Password
pub mod Wizard
pub mod Samples
use taildog.Prelude.{
  ℕ, ◌+◌, ◌≡◌, String, Bool, true, false, nat_key, ◌==◌, Option, none, some, List, Result, ok, err,
  if◌then◌else◌, ltb, length,
}

pub record Claims : Type 0 where
  pub user_id : String
  pub role : String
  pub subject : String
  pub issued_at : ℕ
  pub expires_at : ℕ

abbrev pub access_token_ttl : ℕ
access_token_ttl = 900

abbrev pub refresh_token_ttl : ℕ
refresh_token_ttl = 604800

-- golang-jwt: SignedString with HS256, and ParseWithClaims at a time with the key function that
-- takes HMAC methods only; `none` is its error, or a token that is not valid.
pub record Jwt : Type 0 where
  pub signed_string : List ℕ → Claims → Option String
  pub parse_with_claims : List ℕ → ℕ → String → Option Claims

-- bcrypt.GenerateFromPassword at cost 14, and whether CompareHashAndPassword finds no error.
pub record Bcrypt : Type 0 where
  pub generate_from_password : String → Option String
  pub compare_hash_and_password : String → String → Bool

-- What the package documents of a token that it signed: it is accepted until it expires.
pub record IsSound (j : Jwt) : Type 0 where
  pub parse_signed :
      (key : List ℕ) (c : Claims) (token : String) (now : ℕ)
      → j.signed_string key c ≡ some token
      → j.parse_with_claims key now token ≡ (if ltb now c.expires_at then some c else none)

-- A password is accepted against its own hash.
pub record HashesMatch (b : Bcrypt) : Type 0 where
  pub compare_generated :
      (password hash : String)
      → b.generate_from_password password ≡ some hash
      → b.compare_hash_and_password hash password ≡ true

pub data AuthError : Type 0 where
  secret_not_loaded signing_failed invalid_token hash_failed : AuthError

abbrev or_error {ℓ} : {A : Type ℓ} → AuthError → Option A → Result AuthError A
or_error e none = err e
or_error e (some a) = ok a

abbrev pub access_claims : String → String → ℕ → Claims
access_claims user_id role now = record {
  user_id = user_id;
  role = role;
  subject = user_id;
  issued_at = now;
  expires_at = now + access_token_ttl;
}

abbrev pub refresh_claims : String → ℕ → Claims
refresh_claims user_id now = record {
  user_id = user_id;
  role = "";
  subject = user_id;
  issued_at = now;
  expires_at = now + refresh_token_ttl;
}

module _ (j : Jwt) where
  unfoldable pub issue_access_token :
      Option (List ℕ) → String → String → ℕ → Result AuthError String
  issue_access_token none user_id role now = err secret_not_loaded
  issue_access_token (some key) user_id role now =
      or_error signing_failed (j.signed_string key (access_claims user_id role now))

  unfoldable pub issue_refresh_token : Option (List ℕ) → String → ℕ → Result AuthError String
  issue_refresh_token none user_id now = err secret_not_loaded
  issue_refresh_token (some key) user_id now =
      or_error signing_failed (j.signed_string key (refresh_claims user_id now))

  unfoldable pub validate_token : Option (List ℕ) → ℕ → String → Result AuthError Claims
  validate_token none now token = err secret_not_loaded
  validate_token (some key) now token = or_error invalid_token (j.parse_with_claims key now token)

module _ (b : Bcrypt) where
  unfoldable pub hash_password : String → Result AuthError String
  hash_password password = or_error hash_failed (b.generate_from_password password)

  unfoldable pub check_password : String → String → Bool
  check_password hash password = b.compare_hash_and_password hash password
