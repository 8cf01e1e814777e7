-- ===== src/Startup/Cleanup.antt =====
-- What Run leaves behind, whatever way it returns.
use taildog.Prelude.{
  refl, ◌∙◌, ℕ, ◌≡◌, Bool, true, false, some, [], arith, if◌then◌else◌, Result, err, Bool-cases,
  Option-cases, Result-cases, inl, inr,
}
use taildog.Proxies.{Network, allow, delete_allow, new_proxy_store, ufw_allow, ufw_delete}
use taildog.Proxies.Balance.{commands_of, IsStopped}
use taildog.Proxies.History.{AllFresh, stop_all-handle_all}
use taildog.Db.{Db, is_first_run}
use taildog.Auth.Wizard.{run_wizard}
use taildog.Auth.Secret.{load_secret}
use taildog.Certs.{ensure_certs}
use taildog.Startup.{
  Config, Env, State, RunError, mkdir_data, open_db, load_certs, control_listen, first_run_check,
  wizard, tls, jwt_secret, allow_own, remove_rules, start_api, shut_down, serve, with_secret,
  with_certs, with_users, run,
}

-- Each rule was deleted as often as it was allowed, and each tunnel's listener that was opened is
-- closed; so is the control listener.
pub record IsClean (s : State) : Type 0 where
  pub own_rules :
      (port : ℕ) (net : Network)
      → commands_of port net allow s.own ≡ commands_of port net delete_allow s.own
  pub tunnels : IsStopped s.proxies
  pub no_control : s.control_open ≡ false

-- The one error that Run returns after it has started the HTTP server.
abbrev pub is_control_listen : Result RunError (Unit {0}) → Bool
is_control_listen (err control_listen) = true
is_control_listen _ = false

-- What a result leaves: the HTTP server is left listening by that error alone.
abbrev pub Leaves : Env → Result RunError (Unit {0}) × State → Type 0
Leaves v x =
    IsClean x.1 × (x.1.api_serving ≡ (if is_control_listen x.0 then v.api_listens else false))

-- The process has just started.
pub record IsFirst (s : State) : Type 0 where
  pub no_rules : s.own ≡ []
  pub no_proxies : s.proxies ≡ new_proxy_store
  pub no_api : s.api_serving ≡ false
  pub no_listener : s.control_open ≡ false

module _ (cfg : Config) (v : Env) (available : v.machine.ufw_available ≡ true)
    (fresh : AllFresh v.machine v.events new_proxy_store) where
  first-IsClean : (s : State) → IsFirst s → IsClean s
  unfolding new_proxy_store
  first-IsClean s i = record {
    own_rules = λ port net. rw i.no_rules refl;
    tunnels =
        rw i.no_proxies
          (record { no_entries = refl; rules = λ port net. refl; handles = λ port net. refl });
    no_control = i.no_listener;
  }

  -- An early return with another error than that.
  early :
      (e : RunError) (s : State)
      → is_control_listen (err e) ≡ false
      → IsFirst s
      → Leaves v (err e, s)
  early e s other i = (first-IsClean s i, rw other i.no_api)

  serve-Leaves : (s : State) → IsFirst s → Leaves v (serve cfg v s)
  unfolding serve allow_own remove_rules start_api shut_down ufw_allow ufw_delete
  serve-Leaves s i =
      let stopped = stop_all-handle_all v.machine available v.events fresh in
      elim (Bool-cases v.listens) [
        | inl y ↦
            rw (serve, y)
              (
                record {
                  own_rules = λ port net. rw (i.no_rules, available) (ground arith);
                  tunnels = rw i.no_proxies stopped;
                  no_control = refl;
                },
                refl,
              )
        | inr f ↦
            rw (serve, f)
              (
                record {
                  own_rules = λ port net. rw (i.no_rules, available) (ground arith);
                  tunnels = rw i.no_proxies stopped;
                  no_control = i.no_listener;
                },
                refl,
              )
      ]

  -- The parts of the state that the first steps do not touch.
  kept :
      (s s' : State)
      → IsFirst s
      → s'.own ≡ s.own
      → s'.proxies ≡ s.proxies
      → s'.api_serving ≡ s.api_serving
      → s'.control_open ≡ s.control_open
      → IsFirst s'
  kept s s' i o p a c = record {
    no_rules = o ∙ i.no_rules;
    no_proxies = p ∙ i.no_proxies;
    no_api = a ∙ i.no_api;
    no_listener = c ∙ i.no_listener;
  }

  with_secret-Leaves : (s : State) → IsFirst s → Leaves v (with_secret cfg v s)
  unfolding with_secret
  with_secret-Leaves s i =
      let loaded = load_secret s.secret in
      let s' = record s { secret = loaded.1 } in
      let first = kept s s' i refl refl refl refl in
      elim (Result-cases loaded.0) [
        | inl (e, q) ↦ rw (with_secret, q) (early (jwt_secret e) s' refl first)
        | inr (bytes, q) ↦ rw (with_secret, q) (serve-Leaves s' first)
      ]

  with_certs-Leaves : (s : State) → IsFirst s → Leaves v (with_certs cfg v s)
  unfolding with_certs
  with_certs-Leaves s i =
      let made = ensure_certs v.x509 v.attempt s.certs in
      let s' = record s { certs = made.1 } in
      let first = kept s s' i refl refl refl refl in
      elim (Result-cases made.0) [
        | inl (e, q) ↦ rw (with_certs, q) (early (tls e) s' refl first)
        | inr (u, q) ↦ elim (Bool-cases (v.loads_pair made.1)) [
          | inl y ↦ rw (with_certs, q, y) (with_secret-Leaves s' first)
          | inr f ↦ rw (with_certs, q, f) (early load_certs s' refl first)
        ]
      ]

  with_users-Leaves : (d : Db) (s : State) → IsFirst s → Leaves v (with_users cfg v d s)
  unfolding with_users
  with_users-Leaves d s i =
      let first = is_first_run d in
      let s' = record s { db = some first.1 } in
      let kept' = kept s s' i refl refl refl refl in
      elim (Result-cases first.0) [
        | inl (e, q) ↦ rw (with_users, q) (early (first_run_check e) s' refl kept')
        | inr (false, q) ↦ rw (with_users, q) (with_certs-Leaves s' kept')
        | inr (true, q) ↦
            let made =
              run_wizard v.unicode v.bcrypt v.wizard_id v.wizard_now v.names v.passwords first.1 in
            let s'' = record s { db = some made.1 } in
            let last = kept s s'' i refl refl refl refl in
            elim (Result-cases made.0) [
              | inl (e, w) ↦ rw (with_users, q, w) (early (wizard e) s'' refl last)
              | inr (u, w) ↦ rw (with_users, q, w) (with_certs-Leaves s'' last)
            ]
      ]

  -- On a machine with ufw and from the start of the process, if each tunnel's listener is started
  -- for a tunnel that has none, then whatever way Run returns, the database and the control
  -- listener are closed, each tunnel's listener that was opened is closed, and each firewall rule,
  -- its own or a tunnel's, was deleted as often as it was allowed; the HTTP server is left
  -- listening exactly when it listened and Run returns the error of the control port.
  pub run-IsClean :
      (s : State)
      → IsFirst s
      → s.db_open ≡ false
      → Leaves v (run cfg v s) × ((run cfg v s).1.db_open ≡ false)
  unfolding run
  run-IsClean s i closed = elim (Bool-cases v.makes_data_dir) [
    | inr f ↦ rw (run, f) (early mkdir_data s refl i, closed)
    | inl y ↦ elim (Option-cases v.opened) [
      | inl n ↦ rw (run, y, n) (early open_db s refl i, closed)
      | inr (d, q) ↦
          let s' = record s { db = some d; db_open = true } in
          let (clean, api) = with_users-Leaves d s' (kept s s' i refl refl refl refl) in
          rw (run, y, q)
            (
              (
                record {
                  own_rules = clean.own_rules;
                  tunnels = clean.tunnels;
                  no_control = clean.no_control;
                },
                api,
              ),
              refl,
            )
    ]
  ]
