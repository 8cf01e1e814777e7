-- ===== src/Certs/Keeping.antt =====
-- What EnsureCerts leaves behind, and that it leaves it alone afterwards.
use taildog.Prelude.{
  refl, sym, ap, ◌∙◌, String, Bool, true, false, not, ◌&&◌, ◌≡◌, ℕ, Option, none, some, List, ok,
  is_some, and_true, arith, Bool-cases, Option-cases, Result-cases, inl, inr,
}
use taildog.Certs.{
  CertFiles, X509, Writing, Attempt, Template, template, local_ips, write_pem, is_legacy_cert,
  write_key, write_both, generate, ensure_certs,
}

-- Both files are there, and the certificate is one of the new format.
pub record IsUsable (x : X509) (f : CertFiles) : Type 0 where
  pub has_cert : (bytes : List ℕ) × (f.cert ≡ some bytes) × (x.is_ca bytes ≡ some false)
  pub has_key : is_some f.key ≡ true

-- A certificate that x509.CreateCertificate made from a template with valid basic constraints is
-- read back, from its PEM block, with the template's IsCA.
pub record ReadsBack (x : X509) (a : Attempt) : Type 0 where
  pub authority :
      (t : Template) (der : List ℕ)
      → t.basic_constraints_valid ≡ true
      → a.create t ≡ some der
      → x.is_ca (x.pem "CERTIFICATE" der) ≡ some t.is_ca

module _ (x : X509) where
  write_pem-ok :
      (path block : String) (der : List ℕ) (w : Writing) (old : Option (List ℕ))
      → (write_pem x path block der w old).0 ≡ ok tt
      → (write_pem x path block der w old).1 ≡ some (x.pem block der)
  unfolding write_pem
  write_pem-ok path block der w old h = elim (Bool-cases w.opens) [
    | inr f ↦ absurd (ground (arith, f, h))
    | inl y ↦ elim (Option-cases w.breaks_off) [
      | inl n ↦ rw (write_pem, y, n) refl
      | inr (part, e) ↦ absurd (ground (arith, y, e, h))
    ]
  ]

  IsUsable-kept :
      (a : Attempt) (f : CertFiles)
      → a.makes_dir ≡ true
      → a.cert_readable ≡ true
      → IsUsable x f
      → ensure_certs x a f ≡ (ok tt, f)
  unfolding ensure_certs is_legacy_cert
  IsUsable-kept a f m r u =
      let (bytes, c, n) = u.has_cert in
      let k = u.has_key in rw (ensure_certs, m, c, k, r, is_legacy_cert, n) refl

  write_key-IsUsable :
      (a : Attempt) (f : CertFiles) (bytes : List ℕ)
      → f.cert ≡ some bytes
      → x.is_ca bytes ≡ some false
      → (write_key x a f).0 ≡ ok tt
      → IsUsable x (write_key x a f).1
  unfolding write_key
  write_key-IsUsable a f bytes c n h = elim (Option-cases a.marshal_key) [
    | inl e ↦ absurd (ground (arith, e, h))
    | inr (der, e) ↦
        let w = write_pem x "server.key" "EC PRIVATE KEY" der a.writes_key f.key in
        let shape : write_key x a f ≡ (w.0, record f { key = w.1 }) = rw (write_key, e) refl in
        let written : w.1 ≡ some (x.pem "EC PRIVATE KEY" der) =
          write_pem-ok "server.key" "EC PRIVATE KEY" der a.writes_key f.key
            (ap (λ r. r.0) (sym shape) ∙ h) in
        rw (shape, written) (record { has_cert = (bytes, c, n); has_key = refl })
  ]

  write_both-IsUsable :
      (a : Attempt) (der : List ℕ) (f : CertFiles)
      → x.is_ca (x.pem "CERTIFICATE" der) ≡ some false
      → (write_both x a der f).0 ≡ ok tt
      → IsUsable x (write_both x a der f).1
  unfolding write_both
  write_both-IsUsable a der f n h =
      let w = write_pem x "server.crt" "CERTIFICATE" der a.writes_cert f.cert in
      elim (Result-cases w.0) [
        | inl (e, q) ↦ absurd (ground (arith, q, h))
        | inr (v, q) ↦
            let with_cert = record f { cert = w.1 } in
            let shape : write_both x a der f ≡ write_key x a with_cert = rw (write_both, q) refl in
            let written = write_pem-ok "server.crt" "CERTIFICATE" der a.writes_cert f.cert q in
            rw shape (write_key-IsUsable a with_cert _ written n (ap (λ r. r.0) (sym shape) ∙ h))
      ]

  generate-IsUsable :
      (a : Attempt) (f : CertFiles)
      → ReadsBack x a
      → (generate x a f).0 ≡ ok tt
      → IsUsable x (generate x a f).1
  unfolding generate template
  generate-IsUsable a f l h = elim (Bool-cases a.makes_key) [
    | inr q ↦ absurd (ground (arith, q, h))
    | inl k ↦ elim (Option-cases a.serial) [
      | inl q ↦ absurd (ground (arith, k, q, h))
      | inr (serial, n) ↦
          let t = template serial a.now (local_ips a.interfaces) in
          elim (Option-cases (a.create t)) [
            | inl q ↦ absurd (ground (arith, k, n, q, h))
            | inr (der, q) ↦
                let shape : generate x a f ≡ write_both x a der f = rw (generate, k, n, q) refl in
                let leaf : x.is_ca (x.pem "CERTIFICATE" der) ≡ some false =
                  l.authority t der refl q in
                rw shape (write_both-IsUsable a der f leaf (ap (λ r. r.0) (sym shape) ∙ h))
          ]
    ]
  ]

  is_legacy-leaf :
      (readable : Bool) (o : Option (List ℕ))
      → is_legacy_cert x readable o ≡ false
      → (bytes : List ℕ) × (o ≡ some bytes) × (x.is_ca bytes ≡ some false)
  unfolding is_legacy_cert
  is_legacy-leaf readable none h = cc
  is_legacy-leaf false (some bytes) h = cc
  is_legacy-leaf true (some bytes) h = elim (Option-cases (x.is_ca bytes)) [
    | inl e ↦ absurd (ground (arith, e, h))
    | inr (b, e) ↦ (bytes, refl, e ∙ ap some (ground (arith, e, h)))
  ]

  ensure_certs-IsUsable :
      (a : Attempt) (f : CertFiles)
      → ReadsBack x a
      → (ensure_certs x a f).0 ≡ ok tt
      → IsUsable x (ensure_certs x a f).1
  unfolding ensure_certs
  ensure_certs-IsUsable a f l h =
      let old = is_legacy_cert x a.cert_readable f.cert in
      let reuses = is_some f.cert && is_some f.key && not old in
      elim (Bool-cases a.makes_dir) [
        | inr q ↦ absurd (ground (arith, q, h))
        | inl m ↦ elim (Bool-cases reuses) [
          | inl y ↦
              let shape : ensure_certs x a f ≡ (ok tt, f) = rw (ensure_certs, m, y) refl in
              let (both, new) = and_true (is_some f.cert && is_some f.key) (not old) y in
              let (has_cert, has_key) = and_true (is_some f.cert) (is_some f.key) both in
              rw shape (record {
                has_cert = is_legacy-leaf a.cert_readable f.cert (ground (arith, new));
                has_key = has_key;
              })
          | inr q ↦
              let shape : ensure_certs x a f ≡ generate x a f = rw (ensure_certs, m, q) refl in
              rw shape (generate-IsUsable a f l (ap (λ r. r.0) (sym shape) ∙ h))
        ]
      ]

  -- If EnsureCerts succeeds, the key file exists and the certificate file has a certificate that is
  -- no authority's, and a later start that can make the directory and read the certificate succeeds
  -- and changes neither; x509 reads a certificate back with the IsCA of the template that it was
  -- made from, where the basic constraints are valid.
  pub ensure_certs-ensure_certs :
      (a later : Attempt) (f : CertFiles)
      → ReadsBack x a
      → (ensure_certs x a f).0 ≡ ok tt
      → later.makes_dir ≡ true
      → later.cert_readable ≡ true
      → let made = (ensure_certs x a f).1 in
        IsUsable x made × (ensure_certs x later made ≡ (ok tt, made))
  ensure_certs-ensure_certs a later f l h m r =
      let usable = ensure_certs-IsUsable a f l h in (usable, IsUsable-kept later _ m r usable)
