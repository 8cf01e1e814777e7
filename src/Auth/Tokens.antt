-- ===== src/Auth/Tokens.antt =====
-- How long a token that the relay issued is accepted, and as what.
use taildog.Prelude.{
  ℕ, ◌+◌, ◌≡◌, String, Option, none, some, List, arith, ok, err, if◌then◌else◌, ltb,
}
use taildog.Auth.{
  Jwt, IsSound, Claims, access_claims, refresh_claims, issue_access_token, issue_refresh_token,
  validate_token, invalid_token,
}

module _ (j : Jwt) (sound : IsSound j) where
  validate_signed :
      (key : List ℕ) (c : Claims) (token : String) (now : ℕ)
      → j.signed_string key c ≡ some token
      → validate_token j (some key) now token
        ≡ (if ltb now c.expires_at then ok c else err invalid_token)
  unfolding validate_token
  validate_signed key c token now h = ground (arith, sound.parse_signed key c token now)

  -- Under a sound JWT package, an access token is accepted for fifteen minutes, with the user and
  -- role that it was issued for, and is refused from then on.
  pub validate_token-issue_access_token :
      (secret : Option (List ℕ)) (user_id role token : String) (issued now : ℕ)
      → issue_access_token j secret user_id role issued ≡ ok token
      → validate_token j secret now token ≡ (
          if ltb now (issued + 900)
          then ok (access_claims user_id role issued)
          else err invalid_token)
  unfolding issue_access_token
  validate_token-issue_access_token none user_id role token issued now e = cc
  validate_token-issue_access_token (some key) user_id role token issued now e =
      validate_signed key (access_claims user_id role issued) token now (ground arith)

  -- Under a sound JWT package, a refresh token passes the same check for seven days, with an empty
  -- role, and is refused from then on.
  pub validate_token-issue_refresh_token :
      (secret : Option (List ℕ)) (user_id token : String) (issued now : ℕ)
      → issue_refresh_token j secret user_id issued ≡ ok token
      → validate_token j secret now token ≡ (
          if ltb now (issued + 604800)
          then ok (refresh_claims user_id issued)
          else err invalid_token)
  unfolding issue_refresh_token
  validate_token-issue_refresh_token none user_id token issued now e = cc
  validate_token-issue_refresh_token (some key) user_id token issued now e =
      validate_signed key (refresh_claims user_id issued) token now (ground arith)
