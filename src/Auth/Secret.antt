-- ===== src/Auth/Secret.antt =====
-- LoadSecret of relay/internal/auth/auth.go: the signing secret at <dataDir>/.secret.
use taildog.Prelude.{
  ℕ, ◌≡◌, Bool, not, nat_key, ◌==◌, Option, none, some, List, arith, Result, ok, err, if◌then◌else◌,
  length, ◌||◌,
}

-- The file and what the system answers to the calls of one run: the bytes of rand.Read, and whether
-- MkdirAll, WriteFile and Chmod succeed; a WriteFile that fails may leave anything.
pub record Host : Type 0 where
  pub secret_file : Option (List ℕ)
  pub random : Option (List ℕ)
  pub mkdir_ok : Bool
  pub write_ok : Bool
  pub chmod_ok : Bool
  pub is_windows : Bool
  pub after_failed_write : Option (List ℕ)

pub data SecretError : Type 0 where
  generate mkdir write chmod : SecretError

abbrev pub secret_bytes : ℕ
secret_bytes = 64

-- A failed Chmod leaves the new file behind.
abbrev store_secret : Host → List ℕ → Result SecretError (List ℕ) × Host
store_secret h secret =
    if not h.mkdir_ok
    then (err mkdir, h)
    else if not h.write_ok
    then (err write, record h { secret_file = h.after_failed_write })
    else if h.is_windows || h.chmod_ok
    then (ok secret, record h { secret_file = some secret })
    else (err chmod, record h { secret_file = some secret })

abbrev new_secret : Host → Result SecretError (List ℕ) × Host
new_secret h = elim h.random [ none ↦ (err generate, h) | some secret ↦ store_secret h secret ]

unfoldable pub load_secret : Host → Result SecretError (List ℕ) × Host
load_secret h = elim h.secret_file [
  | none ↦ new_secret h
  | some bytes ↦ if length bytes == secret_bytes then (ok bytes, h) else new_secret h
]

-- rand.Read fills the slice that it is given, which has 64 bytes.
pub record Fills (h : Host) : Type 0 where
  pub fills : (bytes : List ℕ) → h.random ≡ some bytes → length bytes ≡ secret_bytes

-- Where rand.Read fills its slice, a secret that was loaded has 64 bytes, and every later start
-- that finds the file as it was left loads the same secret and changes nothing.
pub load_secret_again :
    (h : Host) (secret : List ℕ) (later : Host)
    → Fills h
    → (load_secret h).0 ≡ ok secret
    → later.secret_file ≡ (load_secret h).1.secret_file
    → (length secret ≡ 64) × ((load_secret later).0 ≡ ok secret) × ((load_secret later).1 ≡ later)
unfolding load_secret
load_secret_again h secret later f e s = ground (arith, f.fills secret)
