-- ===== src/Client/Daemon/Closed.antt =====
-- A local connection that no identifier has is written to no more.
use taildog.Prelude.{
  refl, ap, ◌∙◌, ℕ, ℤ, String, Bool, true, false, nat_key, string_key, beq_ne, ◌≡◌, ◌≢◌, inl, inr,
  append-nil, Option, none, some, List, [], ◌∷◌, arith, Bool-cases, Option-cases,
}
use taildog.Dict.{get, get-put}
use taildog.Proxies.{Network}
use taildog.Client.Daemon.{
  ping, close_out, is_zero, dial_network, resolved, tell_data, leaves, pong, other, open_in,
  data_in, close_in, Daemon, Event, frame, local_read, tick, run, step, read_frame, on_open,
  on_data, dial_local, close_local, safe_encode, read_local, ping_tick,
}
use taildog.Client.Daemon.Effects.{
  written_to, written_to-log, safe_encode-keeps, tell_data-keeps, close_local-keeps,
  close_local-get, Gone, IsApart, AllApart,
}

module _ (conn_id : String) (n : ℕ) where
  -- Nothing is written to a connection that is gone.
  abbrev pub Silent : Daemon → Daemon → Type 0
  Silent s s' = Gone n s'.local_conns × (written_to n s'.written ≡ written_to n s.written)

  keeps-Silent :
      (s s' : Daemon)
      → Gone n s.local_conns
      → (s'.local_conns ≡ s.local_conns) × (s'.written ≡ s.written)
      → Silent s s'
  keeps-Silent s s' g (conns, log) = (rw conns g, ap (written_to n) log)

  close_local-Silent :
      (writes told : Bool) (k : String) (s : Daemon)
      → Gone n s.local_conns
      → Silent s (close_local writes k told s)
  close_local-Silent writes told k s g = (
    (λ c. ground (arith, close_local-get writes told k c s, g c)),
    ap (written_to n) (close_local-keeps writes told k s).1,
  )

  dial_local-Silent :
      (writes : Bool) (dial : Network → ℤ → Option ℕ) (c : String) (port : ℤ) (protocol : String)
      (s : Daemon)
      → ((net : Network) (p : ℤ) → dial net p ≢ some n)
      → Gone n s.local_conns
      → Silent s (dial_local writes dial c port protocol s)
  unfolding dial_local
  dial_local-Silent writes dial c port protocol s fresh g =
      let told =
        keeps-Silent s (safe_encode writes (close_out c) s) g
          (safe_encode-keeps writes (close_out c) s) in
      elim (Bool-cases (is_zero port)) [
        | inl y ↦ rw y told
        | inr f ↦ elim (Option-cases (dial (dial_network protocol) port)) [
          | inl e ↦ rw (f, e) told
          | inr (m, e) ↦
              let ne : m ≢ n = λ q. fresh _ _ (e ∙ ap some q) in
              rw (f, e) ((λ k. ground (arith, get-put c k m s.local_conns, g k, ne)), refl)
        ]
      ]

  on_data-Silent :
      (c : String) (bytes : List ℕ) (s : Daemon)
      → Gone n s.local_conns
      → Silent s (on_data c bytes s)
  unfolding on_data
  on_data-Silent c bytes s g = elim (Option-cases (get c s.local_conns)) [
    | inl e ↦ rw (on_data, e) (g, refl)
    | inr (m, e) ↦
        let f = beq_ne m n (λ q. g c (e ∙ ap some q)) in
        rw (on_data, e) (g, written_to-log n m bytes s ∙ rw f (append-nil _))
  ]

  read_local-Silent :
      (writes closes : Bool) (c : String) (bytes : List ℕ) (failed : Bool) (s : Daemon)
      → Gone n s.local_conns
      → Silent s (read_local writes closes c bytes failed s).1
  unfolding read_local
  read_local-Silent writes closes c bytes failed s g =
      let told = keeps-Silent s (tell_data writes c bytes s) g (tell_data-keeps writes c bytes s) in
      let left = close_local-Silent closes true c (tell_data writes c bytes s) told.0 in
      elim (Bool-cases (leaves writes bytes failed)) [
        | inr f ↦ rw (read_local, f) told
        | inl y ↦ rw (read_local, y) (left.0, left.1 ∙ told.1)
      ]

  step-Silent :
      (e : Event) (s : Daemon) → IsApart conn_id n e → Gone n s.local_conns → Silent s (step e s)
  unfolding step read_frame ping_tick IsApart on_open
  step-Silent (tick writes) s a g =
      keeps-Silent s (safe_encode writes ping s) g (safe_encode-keeps writes ping s)
  step-Silent (local_read writes closes c bytes failed) s a g =
      read_local-Silent writes closes c bytes failed s g
  step-Silent (frame writes dial pong) s a g = (g, refl)
  step-Silent (frame writes dial other) s a g = (g, refl)
  step-Silent (frame writes dial (open_in t c port protocol)) s (apart, fresh) g =
      let known = resolved s.tunnels t port protocol in
      dial_local-Silent writes dial c known.0 known.1 s fresh g
  step-Silent (frame writes dial (data_in c none)) s a g = (g, refl)
  step-Silent (frame writes dial (data_in c (some bytes))) s a g = on_data-Silent c bytes s g
  step-Silent (frame writes dial (close_in c)) s a g = close_local-Silent writes false c s g

  pub run-Silent :
      (es : List Event) (s : Daemon)
      → AllApart conn_id n es
      → Gone n s.local_conns
      → written_to n (run es s).written ≡ written_to n s.written
  unfolding run AllApart
  run-Silent [] s a g = refl
  run-Silent (e ∷ es) s (a, rest) g =
      let (g', kept) = step-Silent e s a g in run-Silent es (step e s) rest g' ∙ kept
