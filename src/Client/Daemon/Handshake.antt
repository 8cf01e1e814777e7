-- ===== src/Client/Daemon/Handshake.antt =====
-- The first part of Connect of client/internal/daemon/daemon.go, up to the registered tunnels, with
-- buildTLSConfig. Packages tls and x509, the hostname and what can be written are outside.
use taildog.Prelude.{
  refl, sym, ap, ◌∙◌, ℕ, suc, String, Bool, true, false, string_key, ◌==◌, ◌≡◌, inl, inr, Option,
  none, some, List, [], ◌∷◌, ◌++◌, map, append-nil, append_assoc, Result, ok, err, if◌then◌else◌,
  arith, Bool-cases, Result-cases,
}
use taildog.Client.Config.{Tunnel, Config}
use taildog.Client.Daemon.{DaemonFrame, hello, register, Daemon, safe_encode}

pub data ConnectError : Type 0 where
  no_relay_host dial_failed hello_failed welcome_failed : ConnectError
  unreadable_ca no_certificates : String → ConnectError
  register_failed : String → ConnectError

pub record TlsConfig : Type 0 where
  pub insecure_skip_verify : Bool
  pub root_cas : Option (List ℕ)
  pub server_name : String

-- What is outside: os.ReadFile, AppendCertsFromPEM on an empty pool, tls.Dial, the frames that can be
-- written, counted from 0, and whether a welcome is read.
pub record Peer : Type 0 where
  pub read_file : String → Option (List ℕ)
  pub has_certs : List ℕ → Bool
  pub dials : String → TlsConfig → Bool
  pub writes : ℕ → Bool
  pub welcomes : Bool
  pub hostname : String

module _ (o : Peer) where
  unfoldable pub build_tls_config : String → Result ConnectError TlsConfig
  build_tls_config ca_cert_path =
      if ca_cert_path == ""
      then ok (record { insecure_skip_verify = true; root_cas = none; server_name = "" })
      else elim (o.read_file ca_cert_path) [
        | none ↦ err (unreadable_ca ca_cert_path)
        | some pem ↦
            if o.has_certs pem
            then ok (record { insecure_skip_verify = false; root_cas = some pem; server_name = "" })
            else err (no_certificates ca_cert_path)
      ]

  -- The loop over the tunnels; the frame of the first one is the i-th of the connection.
  unfoldable pub register_all : ℕ → List Tunnel → Daemon → Result ConnectError (Unit {0}) × Daemon
  unfolding safe_encode
  register_all i [] s = (ok tt, s)
  register_all i (t ∷ ts) s =
      let told = safe_encode (o.writes i) (register t) s in
      let rest = register_all (suc i) ts told in
      if o.writes i then rest else (err (register_failed t.id), told)

  unfoldable pub greet : String → Daemon → Result ConnectError (Unit {0}) × Daemon
  unfolding register_all
  greet client_id s =
      let told = safe_encode (o.writes 0) (hello client_id o.hostname "0.1.0") s in
      let rest = register_all 1 s.tunnels told in
      if o.writes 0
      then (if o.welcomes then rest else (err welcome_failed, told))
      else (err hello_failed, told)

  -- Only a connection that verifies has a server name.
  abbrev pub with_server_name : Config → TlsConfig → TlsConfig
  with_server_name c t = if c.ca_cert_path == "" then t else record t { server_name = c.relay_host }

  unfoldable pub dial_relay :
      Config
      → String
      → Result ConnectError TlsConfig
      → Daemon
      → Result ConnectError (Unit {0}) × Daemon
  unfolding greet
  dial_relay c client_id (err e) s = (err e, s)
  dial_relay c client_id (ok t) s =
      let rest = greet client_id s in
      if o.dials c.relay_host (with_server_name c t) then rest else (err dial_failed, s)

  unfoldable pub new_daemon : Config → Daemon
  new_daemon c = record {
    tunnels = c.tunnels;
    sent = [];
    local_conns = [];
    written = [];
    closed = [];
  }

  -- Connect up to the goroutines.
  unfoldable pub connect : Config → String → Result ConnectError (Unit {0}) × Daemon
  unfolding dial_relay build_tls_config new_daemon
  connect c client_id =
      let rest = dial_relay c client_id (build_tls_config c.ca_cert_path) (new_daemon c) in
      if c.relay_host == "" then (err no_relay_host, new_daemon c) else rest

  -- What the relay is to hear.
  pub introduction : Config → String → List DaemonFrame
  introduction c client_id = hello client_id o.hostname "0.1.0" ∷ map register c.tunnels

  -- What was sent is what `all` begins with, and all of it where the call succeeds.
  pub Prefix : List DaemonFrame → Result ConnectError (Unit {0}) × Daemon → Type 0
  Prefix all x = (rest : List DaemonFrame) × (x.1.sent ++ rest ≡ all) × (x.0 ≡ ok tt → rest ≡ [])

  register_all-Prefix :
      (i : ℕ) (ts : List Tunnel) (s : Daemon)
      → Prefix (s.sent ++ map register ts) (register_all i ts s)
  unfolding register_all safe_encode Prefix
  register_all-Prefix i [] s = ([], refl, λ e. refl)
  register_all-Prefix i (t ∷ ts) s = elim (Bool-cases (o.writes i)) [
    | inl y ↦
        let told = safe_encode true (register t) s in
        let (rest, whole, all) = register_all-Prefix (suc i) ts told in
        rw (register_all, y)
          (rest, whole ∙ append_assoc s.sent (register t ∷ []) (map register ts), all)
    | inr f ↦ rw (register_all, f) (map register (t ∷ ts), refl, λ e. absurd (ground (arith, e)))
  ]

  -- Nothing was sent.
  unsent :
      (all : List DaemonFrame) (e : ConnectError) (s : Daemon) → s.sent ≡ [] → Prefix all (err e, s)
  unfolding Prefix
  unsent all e s q = (all, ap (λ z. z ++ all) q, λ r. absurd (ground (arith, r)))

  greet-Prefix :
      (c : Config) (client_id : String)
      → Prefix (introduction c client_id) (greet client_id (new_daemon c))
  unfolding greet safe_encode Prefix introduction new_daemon
  greet-Prefix c client_id =
      let registers =
        register_all-Prefix 1 c.tunnels
          (safe_encode true (hello client_id o.hostname "0.1.0") (new_daemon c)) in
      elim (Bool-cases (o.writes 0)) [
        | inr f ↦ rw (greet, f) (unsent (introduction c client_id) hello_failed (new_daemon c) refl)
        | inl y ↦ elim (Bool-cases o.welcomes) [
          | inl w ↦ rw (greet, y, w) registers
          | inr f ↦ rw (greet, y, f) (map register c.tunnels, refl, λ e. absurd (ground (arith, e)))
        ]
      ]

  -- What Connect sends, on every branch, is a first part of the introduction, and all of it where it
  -- succeeds.
  pub connect-Prefix :
      (c : Config) (client_id : String) → Prefix (introduction c client_id) (connect c client_id)
  unfolding connect dial_relay new_daemon
  connect-Prefix c client_id =
      let all = introduction c client_id in
      let s = new_daemon c in
      elim (Bool-cases (c.relay_host == "")) [
        | inl y ↦ rw (connect, y) (unsent all no_relay_host s refl)
        | inr f ↦ elim (Result-cases (build_tls_config c.ca_cert_path)) [
          | inl (e, q) ↦ rw (connect, f, q) (unsent all e s refl)
          | inr (t, q) ↦ elim (Bool-cases (o.dials c.relay_host (with_server_name c t))) [
            | inl y ↦ rw (connect, f, q, y) (greet-Prefix c client_id)
            | inr g ↦ rw (connect, f, q, g) (unsent all dial_failed s refl)
          ]
        ]
      ]

  -- Everything outside works.
  pub record IsReachable (c : Config) (t : TlsConfig) : Type 0 where
    pub named : (c.relay_host == "") ≡ false
    pub configured : build_tls_config c.ca_cert_path ≡ ok t
    pub dialled : o.dials c.relay_host (with_server_name c t) ≡ true
    pub writable : (i : ℕ) → o.writes i ≡ true
    pub welcomed : o.welcomes ≡ true

  register_all-ok :
      ((i : ℕ) → o.writes i ≡ true)
      → (i : ℕ) (ts : List Tunnel) (s : Daemon) → (register_all i ts s).0 ≡ ok tt
  unfolding register_all
  register_all-ok w i [] s = refl
  register_all-ok w i (t ∷ ts) s = rw (w i) (register_all-ok w (suc i) ts _)

  -- If the relay's host is set, the TLS configuration can be built, the relay can be dialled and
  -- written to and sends its welcome, then Connect gets through its handshake, and has sent the
  -- hello and then each tunnel of the configuration, in order.
  pub connect-introduction :
      (c : Config) (t : TlsConfig) (client_id : String)
      → IsReachable c t
      → ((connect c client_id).0 ≡ ok tt)
        × ((connect c client_id).1.sent ≡ introduction c client_id)
  unfolding connect dial_relay greet Prefix
  connect-introduction c t client_id r =
      let told = safe_encode true (hello client_id o.hostname "0.1.0") (new_daemon c) in
      let done : (connect c client_id).0 ≡ ok tt =
        rw (connect, r.named, r.configured, r.dialled, r.writable 0, r.welcomed)
          (register_all-ok r.writable 1 c.tunnels told) in
      let (rest, whole, all) = connect-Prefix c client_id in
      (
        done,
        sym (append-nil _) ∙ ap (λ z. (connect c client_id).1.sent ++ z) (sym (all done)) ∙ whole,
      )
