-- ===== src/Pipe/Sending.antt =====
-- The frames that the relay's calls send on one session.
use taildog.Prelude.{
  refl, sym, ap, ◌∙◌, ℕ, ℤ, String, Bool, true, false, ◌&&◌, nat_key, string_key, ◌==◌, beq-cases,
  beq_refl, ◌≡◌, inl, inr, append-nil, append_assoc, none, some, List, [], ◌∷◌, ◌++◌, if◌then◌else◌,
  arith, Bool-cases, Option-cases,
}
use mathlib.Core.Option.{some_inj}
use taildog.Dict.{get, put, delete, get-put}
use taildog.Proxies.{tcp}
use taildog.Sessions.{
  ExtConn, tcp_ext, ClientSession, Outside, Frame, pong, open_frame, data_frame, close_frame, send,
  open_conn, close_conn, write_to_external,
}
use taildog.Control.{Relay, ping, other, data_in, close_in, handle_frame, lookup, at}
use taildog.Control.Bridges.{begin_bridge, carry, end_bridge, open_at}
use taildog.Pipe.{Call, began, carried, ended, heard, perform, perform_all}

module _ (p : ℕ) where
  -- The session at `p` sent these frames more.
  pub record Sends (fs : List Frame) (x : ClientSession) (s : Relay) : Type 0 where
    pub now : ClientSession
    pub there : get p s.heap ≡ some now
    pub more : now.sent ≡ x.sent ++ fs

  stays : (x : ClientSession) (s : Relay) → get p s.heap ≡ some x → Sends [] x s
  stays x s h = record { now = x; there = h; more = sym (append-nil x.sent) }

  -- The session at an address is replaced.
  put-Sends :
      (q : ℕ) (y y' : ClientSession) (fs : List Frame) (x : ClientSession) (s s' : Relay)
      → get p s.heap ≡ some x
      → get q s.heap ≡ some y
      → s'.heap ≡ put q y' s.heap
      → y'.sent ≡ y.sent ++ fs
      → Sends (if q == p then fs else []) x s'
  put-Sends q y y' fs x s s' h e w grows = elim (beq-cases q p) [
    | inl same ↦
        let old : y ≡ x = (some_inj).0 (sym e ∙ ap (λ k. get k s.heap) same ∙ h) in
        rw (same, beq_refl p)
          (record {
            now = y';
            there = ap (get p) w ∙ rw same (get-put p p y' s.heap ∙ rw (beq_refl p) refl);
            more = grows ∙ ap (λ z. z.sent ++ fs) old;
          })
    | inr (apart, differs) ↦ rw differs (record {
      now = x;
      there = ap (get p) w ∙ get-put q p y' s.heap ∙ rw differs h;
      more = sym (append-nil x.sent);
    })
  ]

  absent :
      (q : ℕ) (x : ClientSession) (s : Relay)
      → get p s.heap ≡ some x
      → get q s.heap ≡ none
      → (q == p) ≡ false
  absent q x s h e = elim (beq-cases q p) [
    | inl same ↦ absurd (ground (arith, sym e ∙ ap (λ k. get k s.heap) same ∙ h))
    | inr (apart, differs) ↦ differs
  ]

  at-Sends :
      (q : ℕ) (f : ClientSession → Outside → ClientSession × Outside) (fs : List Frame)
      (x : ClientSession) (s : Relay)
      → get p s.heap ≡ some x
      → ((y : ClientSession) (o : Outside) → (f y o).0.sent ≡ y.sent ++ fs)
      → Sends (if q == p then fs else []) x (at q f s)
  at-Sends q f fs x s h grows = elim (Option-cases (get q s.heap)) [
    | inl e ↦ rw (at, e, absent q x s h e) (stays x s h)
    | inr (y, e) ↦
        rw (at, e) (put-Sends q y (f y s.outside).0 fs x s _ h e refl (grows y s.outside))
  ]

  send-grows :
      (writes : Bool) (f : Frame) (x : ClientSession)
      → (send writes f x).sent ≡ x.sent ++ (if writes then f ∷ [] else [])
  unfolding send
  send-grows true f x = refl
  send-grows false f x = sym (append-nil x.sent)

  close_conn-grows :
      (writes : Bool) (k : String) (told : Bool) (x : ClientSession) (o : Outside)
      → (close_conn writes k told x o).0.sent
        ≡ x.sent ++ (if told && writes then close_frame k ∷ [] else [])
  unfolding close_conn
  close_conn-grows writes k true x o =
      send-grows writes (close_frame k) (record x { conns = delete k x.conns })
  close_conn-grows writes k false x o = sym (append-nil x.sent)

  nothing : (b : Bool) → (if◌then◌else◌ {A = List Frame} b [] []) ≡ []
  nothing true = refl
  nothing false = refl

  at-quiet :
      (q : ℕ) (f : ClientSession → Outside → ClientSession × Outside) (x : ClientSession)
      (s : Relay)
      → get p s.heap ≡ some x
      → ((y : ClientSession) (o : Outside) → (f y o).0.sent ≡ y.sent)
      → Sends [] x (at q f s)
  at-quiet q f x s h keeps =
      let sent = at-Sends q f [] x s h (λ y o. keeps y o ∙ sym (append-nil y.sent)) in
      record {
        now = sent.now;
        there = sent.there;
        more = sent.more ∙ ap (λ z. x.sent ++ z) (nothing (q == p));
      }

  same_heap :
      (fs : List Frame) (x : ClientSession) (s s' : Relay)
      → s'.heap ≡ s.heap
      → Sends fs x s
      → Sends fs x s'
  same_heap fs x s s' e a = record { now = a.now; there = ap (get p) e ∙ a.there; more = a.more }

  open_conn-grows :
      (writes : Bool) (c t : String) (ext : ExtConn) (port : ℤ) (y : ClientSession)
      → (open_conn writes c t tcp ext port y).1.sent
        ≡ y.sent ++ (if writes then open_frame t c port tcp ∷ [] else [])
  unfolding open_conn send
  open_conn-grows true c t ext port y = refl
  open_conn-grows false c t ext port y = sym (append-nil y.sent)

  open_at-Sends :
      (writes : Bool) (q : ℕ) (c t : String) (ext : ExtConn) (port : ℤ) (x : ClientSession)
      (s : Relay)
      → get p s.heap ≡ some x
      → Sends
          (if q == p then (if writes then open_frame t c port tcp ∷ [] else []) else [])
          x
          (open_at writes q c t tcp ext port s).1
  open_at-Sends writes q c t ext port x s h = elim (Option-cases (get q s.heap)) [
    | inl e ↦ rw (open_at, e, absent q x s h e) (stays x s h)
    | inr (y, e) ↦
        rw (open_at, e)
          (put-Sends q y (open_conn writes c t tcp ext port y).1 _ x s _ h e refl
            (open_conn-grows writes c t ext port y))
  ]

  -- The frames of a call on this session.
  unfoldable pub sends_of : Call → Relay → List Frame
  sends_of (began writes c t client port ext) s = elim (lookup client s) [
    | none ↦ []
    | some q ↦ if q == p then (if writes then open_frame t c port tcp ∷ [] else []) else []
  ]
  sends_of (carried writes b bytes) s =
      if b.session == p then (if writes then data_frame b.conn_id bytes ∷ [] else []) else []
  sends_of (ended writes b) s =
      if b.session == p then (if writes then close_frame b.conn_id ∷ [] else []) else []
  sends_of (heard writes q ping) s = if q == p then (if writes then pong ∷ [] else []) else []
  sends_of (heard writes q f) s = []

  perform-Sends :
      (c : Call) (x : ClientSession) (s : Relay)
      → get p s.heap ≡ some x
      → Sends (sends_of c s) x (perform c s)
  unfolding perform sends_of carry end_bridge handle_frame begin_bridge
  perform-Sends (carried writes b bytes) x s h =
      at-Sends b.session (λ y o. (send writes (data_frame b.conn_id bytes) y, o)) _ x s h
        (λ y o. send-grows writes (data_frame b.conn_id bytes) y)
  perform-Sends (ended writes b) x s h =
      same_heap _ x (at b.session (λ y o. close_conn writes b.conn_id true y o) s) _ refl (
        at-Sends b.session (λ y o. close_conn writes b.conn_id true y o) _ x s h
          (λ y o. close_conn-grows writes b.conn_id true y o))
  perform-Sends (heard writes q ping) x s h =
      at-Sends q (λ y o. (send writes pong y, o)) _ x s h (λ y o. send-grows writes pong y)
  perform-Sends (heard writes q other) x s h = stays x s h
  perform-Sends (heard writes q (data_in c none)) x s h = stays x s h
  perform-Sends (heard writes q (data_in c (some bytes))) x s h =
      at-quiet q (λ y o. (y, write_to_external c bytes y o)) x s h (λ y o. refl)
  perform-Sends (heard writes q (close_in c)) x s h =
      at-quiet q (λ y o. close_conn writes c false y o) x s h
        (λ y o. close_conn-grows writes c false y o ∙ append-nil y.sent)
  perform-Sends (began writes c t client port ext) x s h = elim (Option-cases (lookup client s)) [
    | inl e ↦ rw (perform, sends_of, begin_bridge, e) (same_heap [] x s _ refl (stays x s h))
    | inr (q, e) ↦
        let sent = open_at-Sends writes q c t (tcp_ext ext) port x s h in
        elim (Bool-cases (open_at writes q c t tcp (tcp_ext ext) port s).0) [
          | inl y ↦ rw (perform, sends_of, begin_bridge, e, y) sent
          | inr n ↦ rw (perform, sends_of, begin_bridge, e, n) (same_heap _ x _ _ refl sent)
        ]
  ]

  unfoldable pub sent_by_all : List Call → Relay → List Frame
  sent_by_all [] s = []
  sent_by_all (c ∷ cs) s = sends_of c s ++ sent_by_all cs (perform c s)

  pub perform_all-Sends :
      (cs : List Call) (x : ClientSession) (s : Relay)
      → get p s.heap ≡ some x
      → Sends (sent_by_all cs s) x (perform_all cs s)
  unfolding perform_all sent_by_all
  perform_all-Sends [] x s h = stays x s h
  perform_all-Sends (c ∷ cs) x s h =
      let first = perform-Sends c x s h in
      let others = perform_all-Sends cs first.now (perform c s) first.there in
      record {
        now = others.now;
        there = others.there;
        more =
            others.more
            ∙ ap (λ z. z ++ sent_by_all cs (perform c s)) first.more
            ∙ append_assoc x.sent (sends_of c s) (sent_by_all cs (perform c s));
      }
