-- ===== src/Client/Daemon/Receiving.antt =====
-- What reaches a local connection.
use taildog.Prelude.{
  refl, sym, ap, ◌∙◌, ℕ, ℤ, String, Bool, true, false, ◌&&◌, nat_key, string_key, ◌==◌, beq_refl,
  beq_ne, beq-cases, ◌≡◌, ◌≢◌, ◌⊎◌, inl, inr, append-nil, append_assoc, Option, none, some, List,
  [], ◌∷◌, ◌++◌, if◌then◌else◌, arith, Bool-cases, Option-cases,
}
use taildog.Dict.{Dict, get, put, get-put}
use taildog.Proxies.{Network}
use taildog.Client.Daemon.{
  DaemonFrame, ping, close_out, is_zero, dial_network, resolved, tell_data, leaves, pong, other,
  open_in, data_in, close_in, Daemon, Event, frame, local_read, tick, run, step, read_frame,
  on_open, on_data, dial_local, close_local, safe_encode, read_local, ping_tick,
}
use taildog.Client.Daemon.Effects.{
  written_to, written_to-log, safe_encode-keeps, tell_data-keeps, close_local-keeps,
  close_local-get, Gone, IsApart, AllApart,
}
use taildog.Client.Daemon.Closed.{run-Silent}

module _ (conn_id : String) (n : ℕ) where
  -- The connection `n` is that of the identifier, and of no other.
  pub record Owns (conns : Dict String ℕ) : Type 0 where
    pub has_it : get conn_id conns ≡ some n
    pub alone : (c : String) → c ≢ conn_id → get c conns ≢ some n

  -- What an event brings for the connection, `none` where it ends it.
  unfoldable pub effect : Event → Option (List ℕ)
  effect (frame writes dial (data_in c (some bytes))) = some (if c == conn_id then bytes else [])
  effect (frame writes dial (close_in c)) = if c == conn_id then none else some []
  effect (local_read writes closes c bytes failed) =
      if c == conn_id && leaves writes bytes failed then none else some []
  effect e = some []

  unfoldable pub stream : List Event → List ℕ
  stream [] = []
  stream (e ∷ es) =
      let rest = stream es in elim (effect e) [ none ↦ [] | some bytes ↦ bytes ++ rest ]

  -- The two things that a step may do.
  Stays : Option (List ℕ) → Daemon → Daemon → Type 0
  Stays o s s' =
      (bytes : List ℕ) × (o ≡ some bytes)
      × Owns s'.local_conns
      × (written_to n s'.written ≡ written_to n s.written ++ bytes)

  Ends : Option (List ℕ) → Daemon → Daemon → Type 0
  Ends o s s' =
      (o ≡ none) × Gone n s'.local_conns × (written_to n s'.written ≡ written_to n s.written)

  close_local-Ends :
      (writes told : Bool) (s : Daemon)
      → Owns s.local_conns
      → Ends none s (close_local writes conn_id told s)
  unfolding close_local Ends
  close_local-Ends writes told s o = (
    refl,
    (λ c p.
        let q = sym (close_local-get writes told conn_id c s) ∙ p in
        elim (beq-cases conn_id c) [
          | inl same ↦ ground (arith, q, string_key.same_iff conn_id c)
          | inr (apart, f) ↦ ground (arith, f, q, o.alone c (λ e. apart (sym e)))
        ]),
    ap (written_to n) ((close_local-keeps writes told conn_id s).1),
  )

  close_local-Stays :
      (writes told : Bool) (c : String) (s : Daemon)
      → c ≢ conn_id
      → Owns s.local_conns
      → Stays (some []) s (close_local writes c told s)
  unfolding close_local Stays
  close_local-Stays writes told c s apart o = (
    [],
    refl,
    record {
      has_it = close_local-get writes told c conn_id s ∙ rw (beq_ne c conn_id apart) o.has_it;
      alone = λ k far. ground (arith, close_local-get writes told c k s, o.alone k far);
    },
    ap (written_to n) ((close_local-keeps writes told c s).1) ∙ sym (append-nil _),
  )

  told-Stays :
      (writes : Bool) (f : DaemonFrame) (s : Daemon)
      → Owns s.local_conns
      → Stays (some []) s (safe_encode writes f s)
  unfolding Stays
  told-Stays writes f s o =
      let (conns, log) = safe_encode-keeps writes f s in
      ([], refl, rw conns o, ap (written_to n) log ∙ sym (append-nil _))

  put-Owns :
      (c : String) (m : ℕ) (conns : Dict String ℕ)
      → c ≢ conn_id
      → m ≢ n
      → Owns conns
      → Owns (put c m conns)
  put-Owns c m conns apart ne o = record {
    has_it = get-put c conn_id m conns ∙ rw (beq_ne c conn_id apart) o.has_it;
    alone = λ k far. ground (arith, get-put c k m conns, o.alone k far);
  }

  dial_local-Stays :
      (writes : Bool) (dial : Network → ℤ → Option ℕ) (c : String) (port : ℤ) (protocol : String)
      (s : Daemon)
      → c ≢ conn_id
      → ((net : Network) (p : ℤ) → dial net p ≢ some n)
      → Owns s.local_conns
      → Stays (some []) s (dial_local writes dial c port protocol s)
  unfolding dial_local Stays
  dial_local-Stays writes dial c port protocol s apart fresh o = elim (Bool-cases (is_zero port)) [
    | inl y ↦ rw y (told-Stays writes (close_out c) s o)
    | inr f ↦ elim (Option-cases (dial (dial_network protocol) port)) [
      | inl e ↦ rw (f, e) (told-Stays writes (close_out c) s o)
      | inr (m, e) ↦
          rw (f, e)
            (
              [],
              refl,
              put-Owns c m s.local_conns apart (λ q. fresh _ _ (e ∙ ap some q)) o,
              sym (append-nil _),
            )
    ]
  ]

  on_open-Stays :
      (writes : Bool) (dial : Network → ℤ → Option ℕ) (t c : String) (port : ℤ) (protocol : String)
      (s : Daemon)
      → c ≢ conn_id
      → ((net : Network) (p : ℤ) → dial net p ≢ some n)
      → Owns s.local_conns
      → Stays (some []) s (on_open writes dial t c port protocol s)
  unfolding on_open
  on_open-Stays writes dial t c port protocol s apart fresh o =
      let known = resolved s.tunnels t port protocol in
      dial_local-Stays writes dial c known.0 known.1 s apart fresh o

  on_data-Stays :
      (c : String) (bytes : List ℕ) (s : Daemon)
      → Owns s.local_conns
      → Stays (some (if c == conn_id then bytes else [])) s (on_data c bytes s)
  unfolding on_data Stays
  on_data-Stays c bytes s o = elim (beq-cases c conn_id) [
    | inl same ↦
        rw (same, beq_refl conn_id, on_data, o.has_it)
          (
            bytes,
            refl,
            o,
            written_to-log n n bytes s
                ∙ ap (λ b. written_to n s.written ++ (if b then bytes else [])) (beq_refl n),
          )
    | inr (apart, f) ↦ elim (Option-cases (get c s.local_conns)) [
      | inl e ↦ rw (f, on_data, e) ([], refl, o, sym (append-nil _))
      | inr (m, e) ↦
          let g = beq_ne m n (λ q. o.alone c apart (e ∙ ap some q)) in
          rw (f, on_data, e) ([], refl, o, written_to-log n m bytes s ∙ rw g refl)
    ]
  ]

  tell_data-Stays :
      (writes : Bool) (c : String) (bytes : List ℕ) (s : Daemon)
      → Owns s.local_conns
      → Stays (some []) s (tell_data writes c bytes s)
  unfolding Stays
  tell_data-Stays writes c bytes s o =
      let (conns, log) = tell_data-keeps writes c bytes s in
      ([], refl, rw conns o, ap (written_to n) log ∙ sym (append-nil _))

  -- The reader of the connection leaves.
  read_local-Ends :
      (writes closes : Bool) (bytes : List ℕ) (failed : Bool) (s : Daemon)
      → Owns s.local_conns
      → leaves writes bytes failed ≡ true
      → let e = local_read writes closes conn_id bytes failed in Ends (effect e) s (step e s)
  unfolding step read_local effect Ends
  read_local-Ends writes closes bytes failed s o y =
      let (conns, log) = tell_data-keeps writes conn_id bytes s in
      let (none_left, gone, kept) =
        close_local-Ends closes true (tell_data writes conn_id bytes s) (rw conns o) in
      rw (step, y, beq_refl conn_id) (refl, gone, kept ∙ ap (written_to n) log)

  read_local-Outcome :
      (writes closes : Bool) (c : String) (bytes : List ℕ) (failed : Bool) (s : Daemon)
      → Owns s.local_conns
      → let e = local_read writes closes c bytes failed in
        Stays (effect e) s (step e s) ⊎ Ends (effect e) s (step e s)
  unfolding step read_local effect Stays
  read_local-Outcome writes closes c bytes failed s o =
      let (conns, log) = tell_data-keeps writes c bytes s in
      elim (Bool-cases (leaves writes bytes failed)) [
        | inr f ↦ inl (
          [],
          ground (arith, f),
          rw (step, f) (rw conns o),
          rw (step, f) (ap (written_to n) log ∙ sym (append-nil _)),
        )
        | inl y ↦ elim (beq-cases c conn_id) [
          | inl same ↦ inr (rw same (read_local-Ends writes closes bytes failed s o y))
          | inr (apart, g) ↦
              let (bs, q, o', kept) =
                close_local-Stays closes true c (tell_data writes c bytes s) apart (rw conns o) in
              inl (
                bs,
                rw g q,
                rw (step, y) o',
                rw (step, y) (kept ∙ ap (λ z. written_to n z ++ bs) log),
              )
        ]
      ]

  step-Outcome :
      (e : Event) (s : Daemon)
      → IsApart conn_id n e
      → Owns s.local_conns
      → Stays (effect e) s (step e s) ⊎ Ends (effect e) s (step e s)
  unfolding step read_frame ping_tick IsApart effect
  step-Outcome (tick writes) s a o = inl (told-Stays writes ping s o)
  step-Outcome (local_read writes closes c bytes failed) s a o =
      read_local-Outcome writes closes c bytes failed s o
  step-Outcome (frame writes dial pong) s a o = inl (told-Stays false ping s o)
  step-Outcome (frame writes dial other) s a o = inl (told-Stays false ping s o)
  step-Outcome (frame writes dial (open_in t c port protocol)) s (apart, fresh) o =
      inl (on_open-Stays writes dial t c port protocol s apart fresh o)
  step-Outcome (frame writes dial (data_in c none)) s a o = inl (told-Stays false ping s o)
  step-Outcome (frame writes dial (data_in c (some bytes))) s a o = inl (on_data-Stays c bytes s o)
  step-Outcome (frame writes dial (close_in c)) s a o = elim (beq-cases c conn_id) [
    | inl same ↦ inr (rw (same, beq_refl conn_id) (close_local-Ends writes false s o))
    | inr (apart, f) ↦ inl (rw f (close_local-Stays writes false c s apart o))
  ]

  -- Over any sequence of the daemon's events, what is written to a local connection is the payloads
  -- for its identifier in order, up to its close frame or the round in which its reader leaves; the
  -- connection is its identifier's own at first, no open frame has that identifier, and no dial
  -- answers that connection.
  pub run-stream :
      (es : List Event) (s : Daemon)
      → Owns s.local_conns
      → AllApart conn_id n es
      → written_to n (run es s).written ≡ written_to n s.written ++ stream es
  unfolding run AllApart stream Stays Ends
  run-stream [] s o a = sym (append-nil _)
  run-stream (e ∷ es) s o (a, rest) = elim (step-Outcome e s a o) [
    | inr (ends, g, kept) ↦
        rw (stream, ends) (run-Silent conn_id n es (step e s) rest g ∙ kept ∙ sym (append-nil _))
    | inl (bytes, stays, o', grows) ↦
        rw (stream, stays)
          (run-stream es (step e s) o' rest
            ∙ ap (λ z. z ++ stream es) grows
            ∙ append_assoc (written_to n s.written) bytes (stream es))
  ]
