-- ===== src/Pipe/Inward.antt =====
-- From the local service to a peer outside: the relay's end.
use taildog.Prelude.{
  refl, sym, ap, ◌∙◌, ℕ, String, true, false, ◌&&◌, nat_key, string_key, ◌==◌, and_true, beq_refl,
  beq_ne, ◌≡◌, ◌≢◌, ◌⊎◌, inl, inr, append-nil, append_assoc, Option, none, some, List, [], ◌∷◌,
  ◌++◌, if◌then◌else◌, arith, Bool-cases, Option-cases,
}
use taildog.Sessions.{ExtConn, tcp_ext}
use taildog.Control.{Relay, ping, other, data_in, close_in}
use taildog.Pipe.{Call, began, carried, ended, heard, perform, perform_all}
use taildog.Pipe.Connections.{conn_at}
use taildog.Pipe.Written.{sent_to, sent_to-append, sent_to-own, sent_to-other, sent_to-silent}
use taildog.Pipe.Acts.{
  Act, quiet, takes, adds, writes_to, conn_after, log_of, Does, act_of, perform-Does, began-act,
}

module _ (p : ℕ) (conn_id : String) (n : ℕ) where
  -- The session `p` has the connection `n` under the identifier, and no other entry has it.
  pub record Serves (s : Relay) : Type 0 where
    pub has_it : conn_at p conn_id s ≡ some (tcp_ext n)
    pub alone : (r : ℕ) (c : String) → conn_at r c s ≡ some (tcp_ext n) → (r ≡ p) × (c ≡ conn_id)

  Gone : Relay → Type 0
  Gone s = (r : ℕ) (c : String) → conn_at r c s ≢ some (tcp_ext n)

  -- A bridge that begins has another identifier and another connection.
  unfoldable pub IsApart : Call → Type 0
  IsApart (began writes k t client port ext) = (k ≢ conn_id) × (ext ≢ n)
  IsApart c = Unit

  unfoldable pub AllApart : List Call → Type 0
  unfolding IsApart
  AllApart [] = Unit
  AllApart (c ∷ cs) = IsApart c × AllApart cs

  -- What a call brings for the connection, `none` where it ends it.
  unfoldable pub effect : Call → Option (List ℕ)
  effect (heard writes q (data_in c (some bytes))) =
      some (if q == p && c == conn_id then bytes else [])
  effect (heard writes q (close_in c)) = if q == p && c == conn_id then none else some []
  effect (ended writes b) = if b.session == p && b.conn_id == conn_id then none else some []
  effect c = some []

  unfoldable pub delivered : List Call → List ℕ
  unfolding effect
  delivered [] = []
  delivered (c ∷ cs) =
      let rest = delivered cs in elim (effect c) [ none ↦ [] | some bytes ↦ bytes ++ rest ]

  Stays : Option (List ℕ) → Relay → Relay → Type 0
  Stays o s s' =
      (bytes : List ℕ) × (o ≡ some bytes)
      × Serves s'
      × (sent_to n s'.outside.written ≡ sent_to n s.outside.written ++ bytes)

  Ends : Option (List ℕ) → Relay → Relay → Type 0
  Ends o s s' = (o ≡ none) × Gone s' × (sent_to n s'.outside.written ≡ sent_to n s.outside.written)

  quiet-Stays : (s s' : Relay) → Does quiet s s' → Serves s → Stays (some []) s s'
  unfolding conn_after log_of Stays
  quiet-Stays s s' d v = (
    [],
    refl,
    record {
      has_it = d.conns p conn_id ∙ v.has_it;
      alone = λ r c e. v.alone r c (sym (d.conns r c) ∙ e);
    },
    sent_to-silent n s.outside.written _ d.log ∙ sym (append-nil _),
  )

  adds-Stays :
      (q : ℕ) (k : String) (ext : ℕ) (s s' : Relay)
      → Does (adds q k (tcp_ext ext)) s s'
      → k ≢ conn_id
      → ext ≢ n
      → Serves s
      → Stays (some []) s s'
  unfolding conn_after log_of Stays
  adds-Stays q k ext s s' d far ne v =
      let miss : (q == p && k == conn_id) ≡ false = ground (arith, beq_ne k conn_id far) in
      (
        [],
        refl,
        record {
          has_it = d.conns p conn_id ∙ rw miss v.has_it;
          alone = λ r c e. elim (Bool-cases (q == r && k == c)) [
            | inl y ↦ absurd (ground (arith, y, sym (d.conns r c) ∙ e, ne))
            | inr f ↦ v.alone r c (ground (arith, f, sym (d.conns r c) ∙ e))
          ];
        },
        sent_to-silent n s.outside.written _ d.log ∙ sym (append-nil _),
      )

  takes-Outcome :
      (q : ℕ) (k : String) (s s' : Relay)
      → Does (takes q k) s s'
      → Serves s
      → let o : Option (List ℕ) = if q == p && k == conn_id then none else some [] in
        Stays o s s' ⊎ Ends o s s'
  unfolding conn_after log_of Stays Ends Gone
  takes-Outcome q k s s' d v = elim (Bool-cases (q == p && k == conn_id)) [
    | inl y ↦ inr (
        rw y (
          refl,
          (λ r c e. elim (Bool-cases (q == r && k == c)) [
            | inl z ↦ ground (arith, z, sym (d.conns r c) ∙ e)
            | inr f ↦
                let (at_p, at_id) = v.alone r c (ground (arith, f, sym (d.conns r c) ∙ e)) in
                let z : (q == r && k == c) ≡ true = rw (at_p, at_id) y in ground (arith, f, z)
          ]),
          sent_to-silent n s.outside.written _ d.log,
        ))
    | inr f ↦ inl (
        rw f (
          [],
          refl,
          record {
            has_it = d.conns p conn_id ∙ rw f v.has_it;
            alone = λ r c e. elim (Bool-cases (q == r && k == c)) [
              | inl y ↦ absurd (ground (arith, y, sym (d.conns r c) ∙ e))
              | inr g ↦ v.alone r c (ground (arith, g, sym (d.conns r c) ∙ e))
            ];
          },
          sent_to-silent n s.outside.written _ d.log ∙ sym (append-nil _),
        ))
  ]

  writes-Stays :
      (q : ℕ) (c : String) (bytes : List ℕ) (s s' : Relay)
      → Does (writes_to q c bytes) s s'
      → Serves s
      → Stays (some (if q == p && c == conn_id then bytes else [])) s s'
  unfolding conn_after log_of Stays sent_to
  writes-Stays q c bytes s s' d v =
      let serves : Serves s' = record {
        has_it = d.conns p conn_id ∙ v.has_it;
        alone = λ r k e. v.alone r k (sym (d.conns r k) ∙ e);
      } in
      let grows =
        ap (sent_to n) d.log
        ∙ sent_to-append n s.outside.written (log_of (writes_to q c bytes) s) in
      elim (Bool-cases (q == p && c == conn_id)) [
        | inl y ↦
            let (b1, b2) = and_true (q == p) (c == conn_id) y in
            let here : conn_at q c s ≡ some (tcp_ext n) =
              rw ((nat_key.same_iff q p).0 b1, (string_key.same_iff c conn_id).0 b2) v.has_it in
            let own : sent_to n (log_of (writes_to q c bytes) s) ≡ bytes =
              rw (log_of, here) (sent_to-own n bytes) in
            rw y (bytes, refl, serves, grows ∙ ap (λ z. sent_to n s.outside.written ++ z) own)
        | inr f ↦
            let none_own : sent_to n (log_of (writes_to q c bytes) s) ≡ [] =
              elim (Option-cases (conn_at q c s)) [
                | inl e ↦ rw (log_of, e) refl
                | inr (x, e) ↦
                    rw (log_of, e)
                      (sent_to-other n x bytes (λ same.
                        let (at_p, at_id) = v.alone q c (e ∙ ap some same) in
                        let z : (q == p && c == conn_id) ≡ true =
                          rw (at_p, at_id, beq_refl p, beq_refl conn_id) refl in
                        ground (arith, f, z)))
              ] in
            rw f ([], refl, serves, grows ∙ ap (λ z. sent_to n s.outside.written ++ z) none_own)
      ]

  perform-Outcome :
      (c : Call) (s : Relay)
      → IsApart c
      → Serves s
      → Stays (effect c) s (perform c s) ⊎ Ends (effect c) s (perform c s)
  unfolding IsApart effect act_of
  perform-Outcome (carried writes b bytes) s a v =
      inl (quiet-Stays s _ (perform-Does (carried writes b bytes) s) v)
  perform-Outcome (ended writes b) s a v =
      takes-Outcome b.session b.conn_id s _ (perform-Does (ended writes b) s) v
  perform-Outcome (heard writes q ping) s a v =
      inl (quiet-Stays s _ (perform-Does (heard writes q ping) s) v)
  perform-Outcome (heard writes q other) s a v =
      inl (quiet-Stays s _ (perform-Does (heard writes q other) s) v)
  perform-Outcome (heard writes q (data_in c none)) s a v =
      inl (quiet-Stays s _ (perform-Does (heard writes q (data_in c none)) s) v)
  perform-Outcome (heard writes q (data_in c (some bytes))) s a v =
      inl (writes-Stays q c bytes s _ (perform-Does (heard writes q (data_in c (some bytes))) s) v)
  perform-Outcome (heard writes q (close_in c)) s a v =
      takes-Outcome q c s _ (perform-Does (heard writes q (close_in c)) s) v
  perform-Outcome (began writes k t client port ext) s (far, ne) v =
      let d = perform-Does (began writes k t client port ext) s in
      elim (began-act writes k t client port ext s) [
        | inl e ↦ inl (quiet-Stays s _ (rw e at d) v)
        | inr (q, e) ↦ inl (adds-Stays q k ext s _ (rw e at d) far ne v)
      ]

  -- A connection that is gone is written to no more.
  Silent : Relay → Relay → Type 0
  Silent s s' = Gone s' × (sent_to n s'.outside.written ≡ sent_to n s.outside.written)

  Does-Silent :
      (a : Act) (s s' : Relay)
      → ((q : ℕ) (k : String) (e : ExtConn) → a ≡ adds q k e → e ≢ tcp_ext n)
      → Does a s s'
      → Gone s
      → Silent s s'
  unfolding conn_after log_of Silent Gone sent_to
  Does-Silent quiet s s' ne d g =
      ((λ r c e. g r c (sym (d.conns r c) ∙ e)), sent_to-silent n s.outside.written _ d.log)
  Does-Silent (takes q k) s s' ne d g = (
    (λ r c e. g r c (ground (arith, sym (d.conns r c) ∙ e))),
    sent_to-silent n s.outside.written _ d.log,
  )
  Does-Silent (adds q k x) s s' ne d g = (
    (λ r c e. elim (Bool-cases (q == r && k == c)) [
      | inl y ↦ ne q k x refl (ground (arith, y, sym (d.conns r c) ∙ e))
      | inr f ↦ g r c (ground (arith, f, sym (d.conns r c) ∙ e))
    ]),
    sent_to-silent n s.outside.written _ d.log,
  )
  Does-Silent (writes_to q c bytes) s s' ne d g = (
    (λ r k e. g r k (sym (d.conns r k) ∙ e)),
    ap (sent_to n) d.log
        ∙ sent_to-append n s.outside.written (log_of (writes_to q c bytes) s)
        ∙ ap (λ z. sent_to n s.outside.written ++ z)
            (elim (Option-cases (conn_at q c s)) [
              | inl e ↦ rw (log_of, e) (sent_to-silent n [] [] refl)
              | inr (x, e) ↦
                  rw (log_of, e) (sent_to-other n x bytes (λ same. g q c (e ∙ ap some same)))
            ])
        ∙ append-nil _,
  )

  -- What a call adds is another connection.
  adds_other :
      (c : Call) (s : Relay)
      → IsApart c
      → (q : ℕ) (k : String) (e : ExtConn) → act_of c s ≡ adds q k e
      → e ≢ tcp_ext n
  unfolding IsApart act_of
  adds_other (carried writes b bytes) s a q k e h same = absurd cc
  adds_other (ended writes b) s a q k e h same = absurd cc
  adds_other (heard writes r ping) s a q k e h same = absurd cc
  adds_other (heard writes r other) s a q k e h same = absurd cc
  adds_other (heard writes r (data_in c none)) s a q k e h same = absurd cc
  adds_other (heard writes r (data_in c (some bytes))) s a q k e h same = absurd cc
  adds_other (heard writes r (close_in c)) s a q k e h same = absurd cc
  adds_other (began writes k' t client port ext) s (far, ne) q k e h same =
      elim (began-act writes k' t client port ext s) [ inl y ↦ cc | inr (r, y) ↦ ne cc ]

  perform_all-Silent :
      (cs : List Call) (s : Relay)
      → AllApart cs
      → Gone s
      → sent_to n (perform_all cs s).outside.written ≡ sent_to n s.outside.written
  unfolding perform_all AllApart Silent
  perform_all-Silent [] s a g = refl
  perform_all-Silent (c ∷ cs) s (a, rest) g =
      let (g', kept) =
        Does-Silent (act_of c s) s (perform c s) (adds_other c s a) (perform-Does c s) g in
      perform_all-Silent cs (perform c s) rest g' ∙ kept

  -- X
  pub perform_all-delivered :
      (cs : List Call) (s : Relay)
      → Serves s
      → AllApart cs
      → sent_to n (perform_all cs s).outside.written ≡ sent_to n s.outside.written ++ delivered cs
  unfolding perform_all AllApart delivered Stays Ends
  perform_all-delivered [] s v a = sym (append-nil _)
  perform_all-delivered (c ∷ cs) s v (a, rest) = elim (perform-Outcome c s a v) [
    | inr (ends, g, kept) ↦
        rw (delivered, ends)
          (perform_all-Silent cs (perform c s) rest g ∙ kept ∙ sym (append-nil _))
    | inl (bytes, stays, v', grows) ↦
        rw (delivered, stays)
          (perform_all-delivered cs (perform c s) v' rest
            ∙ ap (λ z. z ++ delivered cs) grows
            ∙ append_assoc (sent_to n s.outside.written) bytes (delivered cs))
  ]
