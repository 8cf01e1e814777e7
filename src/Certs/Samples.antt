-- ===== src/Certs/Samples.antt =====
-- A first start, and the theorem there.
use taildog.Prelude.{
  refl, ℕ, Bool, List, Option, nat_key, ◌==◌, ◌≡◌, true, false, none, some, [], ◌∷◌, ok,
}
use taildog.Certs.{CertFiles, X509, Attempt, Writing, Ip, ensure_certs, local_ips}
use taildog.Certs.Keeping.{IsUsable, ReadsBack, ensure_certs-ensure_certs}

abbrev byte_of : Bool → ℕ
byte_of false = 0
byte_of true = 1

abbrev authority_of : List ℕ → Option Bool
authority_of [] = none
authority_of (b ∷ bytes) = some (b == 1)

-- A certificate is one byte, which says whether it is an authority's.
abbrev pub one_byte : X509
one_byte = record { is_ca = authority_of; pem = λ block der. der }

abbrev written : Writing
written = record { opens = true; breaks_off = none }

abbrev pub first_start : Attempt
first_start = record {
  makes_dir = true;
  cert_readable = true;
  makes_key = true;
  serial = some 5;
  now = 1000;
  interfaces = none;
  create = λ t. some (byte_of t.is_ca ∷ []);
  marshal_key = some (8 ∷ []);
  writes_cert = written;
  writes_key = written;
}

abbrev pub no_certs : CertFiles
no_certs = record { cert = none; key = none }

read_back :
    (b : Bool) (der : List ℕ)
    → ◌≡◌ {A = Option (List ℕ)} (some (byte_of b ∷ [])) (some der)
    → authority_of der ≡ some b
read_back b [] h = cc
read_back b (c ∷ cs) h =
    let same : c ≡ byte_of b = cc in
    rw same (elim b as (λ b. authority_of (byte_of b ∷ cs) ≡ some b) [ false ↦ refl | true ↦ refl ])

one_byte-ReadsBack : ReadsBack one_byte first_start
one_byte-ReadsBack = record { authority = λ t der valid made. read_back t.is_ca der made }

ensure_certs-ensure_certs_example :
    let made = (ensure_certs one_byte first_start no_certs).1 in
    IsUsable one_byte made × (ensure_certs one_byte first_start made ≡ (ok tt, made))
unfolding ensure_certs
ensure_certs-ensure_certs_example =
    ensure_certs-ensure_certs one_byte first_start first_start no_certs one_byte-ReadsBack refl refl
      refl

-- The disk is full when the key is written: both files are there, so later starts keep them.
abbrev full_disk : Attempt
full_disk = record first_start { writes_key = record { opens = true; breaks_off = some [] } }

unusable_key_is_kept :
    let left = (ensure_certs one_byte full_disk no_certs).1 in
    (left ≡ record { cert = some (0 ∷ []); key = some [] })
    × (ensure_certs one_byte first_start left ≡ (ok tt, left))
unfolding ensure_certs
unusable_key_is_kept = (refl, refl)

-- One address of two interfaces, and a loopback.
abbrev lan : Ip
lan = record { text = "192.168.1.5"; is_loopback = false }

lan_once :
    local_ips (some (some (some lan ∷ none ∷ []) ∷ none ∷ some (some lan ∷ []) ∷ []))
    ≡ record { text = "127.0.0.1"; is_loopback = true }
      ∷ record { text = "::1"; is_loopback = true }
      ∷ lan
      ∷ []
unfolding local_ips
lan_once = refl
