-- ===== src/Certs.antt =====
-- relay/internal/tls/tls.go: the relay's self-signed certificate and its key. The packages of crypto,
-- encoding/pem and net are parameters; the two files are the state.
pub mod Addresses
pub mod Keeping
pub mod Samples
use taildog.Prelude.{
  String, Bool, true, false, not, ◌+◌, ◌-◌, ◌*◌, ◌&&◌, ◌||◌, string_key, ◌==◌, ℕ, Option, none,
  some, List, [], ◌∷◌, ◌++◌, Result, ok, err, if◌then◌else◌, is_some,
}

pub record Ip : Type 0 where
  pub text : String
  pub is_loopback : Bool

abbrev pub contains : List String → String → Bool
contains [] s = false
contains (x ∷ xs) s = x == s || contains xs s

-- An address that is new; `seen` is the map of the code.
unfoldable pub add_ip : Ip → List String × List Ip → List String × List Ip
add_ip ip (seen, ips) =
    if ip.is_loopback || contains seen ip.text
    then (seen, ips)
    else (ip.text ∷ seen, ips ++ ip ∷ [])

-- The addresses of one interface; a nil address is `none`.
unfoldable pub add_addrs : List (Option Ip) → List String × List Ip → List String × List Ip
unfolding add_ip
add_addrs [] acc = acc
add_addrs (none ∷ addrs) acc = add_addrs addrs acc
add_addrs (some ip ∷ addrs) acc = add_addrs addrs (add_ip ip acc)

-- The interfaces, whose addresses may be an error, `none`.
unfoldable pub add_interfaces :
    List (Option (List (Option Ip))) → List String × List Ip → List String × List Ip
unfolding add_addrs
add_interfaces [] acc = acc
add_interfaces (none ∷ faces) acc = add_interfaces faces acc
add_interfaces (some addrs ∷ faces) acc = add_interfaces faces (add_addrs addrs acc)

abbrev pub loopbacks : List Ip
loopbacks =
    record { text = "127.0.0.1"; is_loopback = true }
    ∷ record { text = "::1"; is_loopback = true }
    ∷ []

unfoldable pub local_ips : Option (List (Option (List (Option Ip)))) → List Ip
unfolding add_interfaces
local_ips none = loopbacks
local_ips (some faces) = (add_interfaces faces ("127.0.0.1" ∷ "::1" ∷ [], loopbacks)).1

-- server.crt and server.key.
pub record CertFiles : Type 0 where
  pub cert : Option (List ℕ)
  pub key : Option (List ℕ)

pub data TlsError : Type 0 where
  mkdir_failed key_failed serial_failed create_failed marshal_failed : TlsError
  open_failed write_failed : String → TlsError

-- `is_ca` is pem.Decode and x509.ParseCertificate on the bytes of a file, `none` where one fails.
pub record X509 : Type 0 where
  pub is_ca : List ℕ → Option Bool
  pub pem : String → List ℕ → List ℕ

pub data KeyUsage : Type 0 where
  digital_signature key_encipherment server_auth : KeyUsage

-- The fields of x509.Certificate that the template sets; times are in seconds.
pub record Template : Type 0 where
  pub serial_number : ℕ
  pub organization : List String
  pub common_name : String
  pub not_before : ℕ
  pub not_after : ℕ
  pub key_usage : List KeyUsage
  pub ext_key_usage : List KeyUsage
  pub basic_constraints_valid : Bool
  pub is_ca : Bool
  pub ip_addresses : List Ip
  pub dns_names : List String

-- The literal of `generate`; the clock is past the first minute of 1970.
unfoldable pub template : ℕ → ℕ → List Ip → Template
template serial now ips = record {
  serial_number = serial;
  organization = "renode relay" ∷ [];
  common_name = "renode-relay";
  not_before = now - 60;
  not_after = now + 10 * 365 * 24 * 3600;
  key_usage = digital_signature ∷ key_encipherment ∷ [];
  ext_key_usage = server_auth ∷ [];
  basic_constraints_valid = true;
  is_ca = false;
  ip_addresses = ips;
  dns_names = "localhost" ∷ [];
}

-- What happens to one file: whether it opens, and what it holds where pem.Encode then fails.
pub record Writing : Type 0 where
  pub opens : Bool
  pub breaks_off : Option (List ℕ)

-- What a run of EnsureCerts is answered; a file that exists may be unreadable.
pub record Attempt : Type 0 where
  pub makes_dir : Bool
  pub cert_readable : Bool
  pub makes_key : Bool
  pub serial : Option ℕ
  pub now : ℕ
  pub interfaces : Option (List (Option (List (Option Ip))))
  pub create : Template → Option (List ℕ)
  pub marshal_key : Option (List ℕ)
  pub writes_cert : Writing
  pub writes_key : Writing

module _ (x : X509) where
  unfoldable pub write_pem :
      String
      → String
      → List ℕ
      → Writing
      → Option (List ℕ)
      → Result TlsError (Unit {0}) × Option (List ℕ)
  write_pem path block_type der w old =
      if w.opens
      then elim w.breaks_off [
        | none ↦ (ok tt, some (x.pem block_type der))
        | some part ↦ (err (write_failed path), some part)
      ]
      else (err (open_failed path), old)

  -- A certificate that cannot be read or parsed counts as one of the old format.
  unfoldable pub is_legacy_cert : Bool → Option (List ℕ) → Bool
  is_legacy_cert readable none = true
  is_legacy_cert false (some bytes) = true
  is_legacy_cert true (some bytes) = elim (x.is_ca bytes) [ none ↦ true | some b ↦ b ]

  write_key : Attempt → CertFiles → Result TlsError (Unit {0}) × CertFiles
  unfolding write_pem
  write_key a f = elim a.marshal_key [
    | none ↦ (err marshal_failed, f)
    | some der ↦
        let w = write_pem "server.key" "EC PRIVATE KEY" der a.writes_key f.key in
        (w.0, record f { key = w.1 })
  ]

  write_both : Attempt → List ℕ → CertFiles → Result TlsError (Unit {0}) × CertFiles
  unfolding write_pem write_key
  write_both a der f =
      let w = write_pem "server.crt" "CERTIFICATE" der a.writes_cert f.cert in
      let with_cert = record f { cert = w.1 } in
      elim w.0 [ err e ↦ (err e, with_cert) | ok v ↦ write_key a with_cert ]

  unfoldable pub generate : Attempt → CertFiles → Result TlsError (Unit {0}) × CertFiles
  unfolding write_both local_ips template
  generate a f = if not a.makes_key then (err key_failed, f) else elim a.serial [
    | none ↦ (err serial_failed, f)
    | some serial ↦ elim (a.create (template serial a.now (local_ips a.interfaces))) [
      | none ↦ (err create_failed, f)
      | some der ↦ write_both a der f
    ]
  ]

  unfoldable pub ensure_certs : Attempt → CertFiles → Result TlsError (Unit {0}) × CertFiles
  unfolding generate is_legacy_cert
  ensure_certs a f =
      if not a.makes_dir
      then (err mkdir_failed, f)
      else if is_some f.cert && is_some f.key && not (is_legacy_cert a.cert_readable f.cert)
      then (ok tt, f)
      else generate a f
