-- ===== src/Auth/Samples.antt =====
-- A signing package that knows three tokens, a hash that is the password itself, and each theorem at
-- an input.
use taildog.Prelude.{
  codes, refl, ℕ, ◌≡◌, ◌↔◌, inl, inr, ◌≤◌, Bool, true, false, ◌&&◌, string_key, nat_key, ◌==◌,
  Option, none, some, List, [], ◌∷◌, arith, ok, err, if◌then◌else◌, ltb, leb, Bool-cases, eq_iff,
  nat_beq_iff, length,
}
use taildog.Db.{Db, create_user}
use taildog.Db.Rows.{find}
use taildog.Auth.{
  Claims, Jwt, Bcrypt, IsSound, HashesMatch, access_claims, refresh_claims, hash_password,
}
use taildog.Auth.Secret.{Host, load_secret, load_secret_again}
use taildog.Auth.Password.{
  Unicode, no_upper, validate_password, validate_password_iff, note_rune, scan_runes,
  matches_username, all_username, is_username_rune, any, only_lower, only_digit, only_symbol,
  byte_len,
}
use taildog.Auth.Wizard.{run_wizard, run_wizard_creates}

abbrev same_claims : Claims → Claims → Bool
same_claims c d =
    (c.user_id == d.user_id)
    && ((c.role == d.role)
        && ((c.subject == d.subject)
            && ((c.issued_at == d.issued_at) && (c.expires_at == d.expires_at))))

same_claims_lem : (c d : Claims) → same_claims c d ≡ true → c ≡ d
same_claims_lem c d e = ground (
  arith,
  eq_iff c.user_id d.user_id,
  eq_iff c.role d.role,
  eq_iff c.subject d.subject,
  nat_beq_iff c.issued_at d.issued_at,
  nat_beq_iff c.expires_at d.expires_at,
)

abbrev pub early_access : Claims
early_access = access_claims "u1" "admin" 1000

abbrev pub late_access : Claims
late_access = access_claims "u1" "admin" 5000

abbrev pub session : Claims
session = refresh_claims "u1" 1000

abbrev live : ℕ → Claims → Option Claims
live now c = if ltb now c.expires_at then some c else none

abbrev pub three_tokens : Jwt
three_tokens = record {
  signed_string = λ key c.
      if same_claims c early_access
      then some "early"
      else if same_claims c late_access
      then some "late"
      else if same_claims c session
      then some "session"
      else none;
  parse_with_claims = λ key now token.
      if token == "early"
      then live now early_access
      else if token == "late"
      then live now late_access
      else if token == "session"
      then live now session
      else none;
}

pub three_tokens-IsSound : IsSound three_tokens
three_tokens-IsSound = record {
  parse_signed = λ key c token now e. elim (Bool-cases (same_claims c early_access)) [
    | inl t ↦
        let q : some "early" ≡ some token = rw t at e in
        rw (same_claims_lem c early_access t, ← (let z : "early" ≡ token = cc q in z)) refl
    | inr f ↦ elim (Bool-cases (same_claims c late_access)) [
      | inl t ↦
          let q : some "late" ≡ some token = rw (f, t) at e in
          rw (same_claims_lem c late_access t, ← (let z : "late" ≡ token = cc q in z)) refl
      | inr g ↦ elim (Bool-cases (same_claims c session)) [
        | inl t ↦
            let q : some "session" ≡ some token = rw (f, g, t) at e in
            rw (same_claims_lem c session t, ← (let z : "session" ≡ token = cc q in z)) refl
        | inr n ↦ absurd (let q : none ≡ some token = rw (f, g, n) at e in cc q)
      ]
    ]
  ];
}

abbrev pub plain : Bcrypt
plain = record {
  generate_from_password = λ p. some p;
  compare_hash_and_password = λ hash p. hash == p;
}

pub plain-HashesMatch : HashesMatch plain
plain-HashesMatch = record {
  compare_generated = λ password hash e. ground (arith, eq_iff hash password);
}

abbrev pub key : Option (List ℕ)
key = some (1 ∷ 2 ∷ [])

abbrev pub ascii : Unicode
ascii = record {
  is_upper = λ r. leb b'A' r && leb r b'Z';
  is_lower = λ r. leb b'a' r && leb r b'z';
  is_digit = λ r. leb b'0' r && leb r b'9';
  is_punct = λ r. r == b'-';
  is_symbol = λ r. r == b'+';
}

too_plain : validate_password ascii (codes "abcdefgh-123") ≡ err no_upper
unfolding validate_password scan_runes note_rune
too_plain = refl

validate_password_iff_example : (validate_password ascii (codes "Abcdefgh-123") ≡ ok tt) ↔ (
    (12 ≤ byte_len (codes "Abcdefgh-123"))
    × (any ascii ascii.is_upper (codes "Abcdefgh-123") ≡ true)
    × (any ascii (only_lower ascii) (codes "Abcdefgh-123") ≡ true)
    × (any ascii (only_digit ascii) (codes "Abcdefgh-123") ≡ true)
    × (any ascii (only_symbol ascii) (codes "Abcdefgh-123") ≡ true))
validate_password_iff_example = validate_password_iff ascii (codes "Abcdefgh-123")

abbrev pub no_rows : Db
no_rows = record {
  tables = record {
    users = [];
    refresh_tokens = [];
    rate_limit = [];
    audit_log = [];
    canvas_state = some "{}";
  };
  faults = [];
}

run_wizard_creates_example :
    run_wizard ascii plain "u1" 1000
      ("x" ∷ "ada" ∷ [])
      ("short" ∷ "Abcdefgh-123" ∷ "Abcdefgh-123" ∷ [])
      no_rows
    ≡ (ok tt, (create_user "u1" "ada" "Abcdefgh-123" "admin" 1000 no_rows).1)
unfolding hash_password create_user matches_username all_username is_username_rune validate_password
    scan_runes note_rune find
run_wizard_creates_example =
    run_wizard_creates ascii plain "u1" 1000 no_rows ("x" ∷ []) [] ("short" ∷ []) [] "ada"
      "Abcdefgh-123" "Abcdefgh-123" (refl, tt) refl (refl, tt) refl refl refl

abbrev eight : List ℕ → List ℕ
eight xs = 7 ∷ 1 ∷ 8 ∷ 2 ∷ 8 ∷ 1 ∷ 8 ∷ 2 ∷ xs

-- Sixty-four bytes.
abbrev random_bytes : List ℕ
random_bytes = eight (eight (eight (eight (eight (eight (eight (eight [])))))))

abbrev pub first_start : Host
first_start = record {
  secret_file = none;
  random = some random_bytes;
  mkdir_ok = true;
  write_ok = true;
  chmod_ok = true;
  is_windows = false;
  after_failed_write = none;
}

abbrev second_start : Host
second_start = record first_start { secret_file = some random_bytes }

fills : (bytes : List ℕ) → some random_bytes ≡ some bytes → length bytes ≡ 64
fills bytes e = let q : random_bytes ≡ bytes = cc e in rw (← q) refl

load_secret_again_example :
    (length random_bytes ≡ 64)
    × ((load_secret second_start).0 ≡ ok random_bytes)
    × ((load_secret second_start).1 ≡ second_start)
unfolding load_secret
load_secret_again_example =
    load_secret_again first_start random_bytes second_start
      (record { fills = λ bytes e. fills bytes e }) refl refl
