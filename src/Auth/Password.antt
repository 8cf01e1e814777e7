-- ===== src/Auth/Password.antt =====
-- validatePassword and usernameRE of relay/internal/auth/wizard.go. A text is the list of its runes;
-- the classes of package unicode are parameters.
use taildog.Prelude.{
  ℕ, ◌+◌, ◌≡◌, ◌↔◌, ◌≤◌, Bool, true, false, ◌&&◌, ◌||◌, nat_key, ◌==◌, List, [], ◌∷◌, arith, Result,
  ok, err, if◌then◌else◌, length, ltb, leb, not,
}

pub record Unicode : Type 0 where
  pub is_upper : ℕ → Bool
  pub is_lower : ℕ → Bool
  pub is_digit : ℕ → Bool
  pub is_punct : ℕ → Bool
  pub is_symbol : ℕ → Bool

pub data PasswordError : Type 0 where
  too_short no_upper no_lower no_digit no_symbol : PasswordError

-- The bytes of a rune in UTF-8, and of a text: Go's `len` of a string.
abbrev pub rune_len : ℕ → ℕ
rune_len r = if ltb r 0x80 then 1 else if ltb r 0x800 then 2 else if ltb r 0x10000 then 3 else 4

abbrev pub byte_len : List ℕ → ℕ
byte_len [] = 0
byte_len (r ∷ rs) = rune_len r + byte_len rs

pub record Flags : Type 0 where
  pub has_upper : Bool
  pub has_lower : Bool
  pub has_digit : Bool
  pub has_symbol : Bool

module _ (u : Unicode) where
  open u use {is_upper, is_lower, is_digit, is_punct, is_symbol}

  -- The switch in the loop: the first class that fits counts.
  unfoldable pub note_rune : ℕ → Flags → Flags
  note_rune r f =
      if is_upper r
      then record f { has_upper = true }
      else if is_lower r
      then record f { has_lower = true }
      else if is_digit r
      then record f { has_digit = true }
      else if is_punct r || is_symbol r
      then record f { has_symbol = true }
      else f

  unfoldable pub scan_runes : List ℕ → Flags → Flags
  scan_runes [] f = f
  scan_runes (r ∷ rs) f = scan_runes rs (note_rune r f)

  abbrev no_flags : Flags
  no_flags = record { has_upper = false; has_lower = false; has_digit = false; has_symbol = false }

  abbrev check_flags : Flags → Result PasswordError (Unit {0})
  check_flags f =
      if not f.has_upper
      then err no_upper
      else if not f.has_lower
      then err no_lower
      else if not f.has_digit
      then err no_digit
      else if not f.has_symbol
      then err no_symbol
      else ok tt

  unfoldable pub validate_password : List ℕ → Result PasswordError (Unit {0})
  validate_password p =
      if ltb (byte_len p) 12 then err too_short else check_flags (scan_runes p no_flags)

  -- The specification: some rune passes the test.
  abbrev pub any : (ℕ → Bool) → List ℕ → Bool
  any f [] = false
  any f (r ∷ rs) = f r || any f rs

  abbrev pub only_lower : ℕ → Bool
  only_lower r = not (is_upper r) && is_lower r

  abbrev pub only_digit : ℕ → Bool
  only_digit r = not (is_upper r) && (not (is_lower r) && is_digit r)

  abbrev pub only_symbol : ℕ → Bool
  only_symbol r =
      not (is_upper r) && (not (is_lower r) && (not (is_digit r) && (is_punct r || is_symbol r)))

  -- The loop of flags is four searches.
  scan_runes_lem :
      (p : List ℕ) (f : Flags)
      → scan_runes p f ≡ record {
        has_upper = f.has_upper || any is_upper p;
        has_lower = f.has_lower || any only_lower p;
        has_digit = f.has_digit || any only_digit p;
        has_symbol = f.has_symbol || any only_symbol p;
      }
  unfolding scan_runes note_rune
  scan_runes_lem [] f = ground arith
  scan_runes_lem (r ∷ rs) f = ground (arith, scan_runes_lem rs (note_rune r f))

  -- A password is accepted exactly if it has twelve bytes and a rune of each of the four classes,
  -- where a rune counts for the first class that it belongs to.
  pub validate_password_iff :
      (p : List ℕ)
      → (validate_password p ≡ ok tt) ↔ (
          (12 ≤ byte_len p)
          × (any is_upper p ≡ true)
          × (any only_lower p ≡ true)
          × (any only_digit p ≡ true)
          × (any only_symbol p ≡ true))
  unfolding validate_password
  validate_password_iff p = ground (arith, scan_runes_lem p no_flags)

-- usernameRE: `^[a-zA-Z0-9_-]{3,32}$`.
unfoldable pub is_username_rune : ℕ → Bool
is_username_rune c =
    (leb b'a' c && leb c b'z')
    || (leb b'A' c && leb c b'Z')
    || (leb b'0' c && leb c b'9')
    || (c == b'_')
    || (c == b'-')

unfoldable pub all_username : List ℕ → Bool
all_username [] = true
all_username (c ∷ cs) = is_username_rune c && all_username cs

unfoldable pub matches_username : List ℕ → Bool
matches_username s = leb 3 (length s) && leb (length s) 32 && all_username s
