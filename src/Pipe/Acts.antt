-- ===== src/Pipe/Acts.antt =====
-- What the relay's calls do to the connections from outside, and what they write to them.
use taildog.Prelude.{
  refl, sym, ap, ◌∙◌, ℕ, ℤ, String, Bool, true, false, ◌&&◌, nat_key, string_key, ◌==◌, beq_refl,
  beq-cases, ◌≡◌, ◌⊎◌, inl, inr, append-nil, Option, none, some, List, [], ◌∷◌, ◌++◌, if◌then◌else◌,
  Bool-cases, Option-cases, is_some,
}
use taildog.Dict.{get, put, delete, get-put}
use taildog.Proxies.{tcp}
use taildog.Sessions.{
  ClientSession, ExtConn, tcp_ext, udp_ext, Outside, Frame, close_frame, pong, data_frame, send,
  open_conn, close_conn, write_to_external, close_ext,
}
use taildog.Control.{Relay, ping, other, data_in, close_in, handle_frame, lookup, at}
use taildog.Control.Bridges.{begin_bridge, carry, end_bridge, open_at}
use taildog.Pipe.{Call, began, carried, ended, heard, perform}
use taildog.Pipe.Connections.{
  conn_at, conn_at-same_heap, conn_at-put, conn_at-keeps, conn_at-closes, conn_at-known,
  written-keeps, written-data,
}

-- What a call does to the connections of all sessions.
pub data Act : Type 0 where
  quiet : Act
  takes : ℕ → String → Act
  adds : ℕ → String → ExtConn → Act
  writes_to : ℕ → String → List ℕ → Act

unfoldable pub conn_after : Act → ℕ → String → Option ExtConn → Option ExtConn
conn_after (takes q k) r c o = if q == r && k == c then none else o
conn_after (adds q k e) r c o = if q == r && k == c then some e else o
conn_after a r c o = o

unfoldable pub log_of : Act → Relay → List (ExtConn × List ℕ)
log_of (writes_to q c bytes) s = elim (conn_at q c s) [ none ↦ [] | some e ↦ (e, bytes) ∷ [] ]
log_of a s = []

pub record Does (a : Act) (s s' : Relay) : Type 0 where
  pub conns : (r : ℕ) (c : String) → conn_at r c s' ≡ conn_after a r c (conn_at r c s)
  pub log : s'.outside.written ≡ s.outside.written ++ log_of a s

send-conns : (writes : Bool) (f : Frame) (x : ClientSession) → (send writes f x).conns ≡ x.conns
unfolding send
send-conns true f x = refl
send-conns false f x = refl

close_ext-written : (e : ExtConn) (o : Outside) → (close_ext e o).written ≡ o.written
close_ext-written (tcp_ext n) o = refl
close_ext-written (udp_ext n addr) o = refl

close_conn-conns :
    (writes : Bool) (k : String) (told : Bool) (x : ClientSession) (o : Outside)
    → (close_conn writes k told x o).0.conns ≡ delete k x.conns
unfolding close_conn
close_conn-conns writes k true x o =
    send-conns writes (close_frame k) (record x { conns = delete k x.conns })
close_conn-conns writes k false x o = refl

close_conn-effect :
    (writes : Bool) (k : String) (told : Bool) (x : ClientSession) (o : Outside)
    → ((close_conn writes k told x o).0.conns ≡ delete k x.conns)
      × ((close_conn writes k told x o).1.written ≡ o.written)
unfolding close_conn
close_conn-effect writes k told x o = (
  close_conn-conns writes k told x o,
  elim (Option-cases (get k x.conns)) [
    | inl n ↦ rw (close_conn, n) refl
    | inr (e, y) ↦ rw (close_conn, y) (close_ext-written e o)
  ],
)

quiet-Does :
    (q : ℕ) (f : ClientSession → Outside → ClientSession × Outside) (s : Relay)
    → ((y : ClientSession) (o : Outside)
        → ((f y o).0.conns ≡ y.conns) × ((f y o).1.written ≡ o.written))
    → Does quiet s (at q f s)
unfolding conn_after log_of
quiet-Does q f s k = record {
  conns = conn_at-keeps q f s (λ y o. (k y o).0);
  log = written-keeps q f s (λ y o. (k y o).1) ∙ sym (append-nil _);
}

takes-Does :
    (writes told : Bool) (q : ℕ) (k : String) (s : Relay)
    → Does (takes q k) s (at q (λ y o. close_conn writes k told y o) s)
unfolding conn_after log_of
takes-Does writes told q k s = record {
  conns =
      conn_at-closes q (λ y o. close_conn writes k told y o) s k
        (λ y o. (close_conn-effect writes k told y o).0);
  log =
      written-keeps q (λ y o. close_conn writes k told y o) s
        (λ y o. (close_conn-effect writes k told y o).1)
      ∙ sym (append-nil _);
}

nothing-Does :
    (s s' : Relay) → s'.heap ≡ s.heap → s'.outside.written ≡ s.outside.written → Does quiet s s'
unfolding conn_after log_of
nothing-Does s s' h w = record {
  conns = λ r c. conn_at-same_heap r c s s' h;
  log = w ∙ sym (append-nil _);
}

-- Neither the heap nor what was written differs.
as_before :
    (a : Act) (s t t' : Relay)
    → t'.heap ≡ t.heap
    → t'.outside.written ≡ t.outside.written
    → Does a s t
    → Does a s t'
as_before a s t t' h w d = record {
  conns = λ r c. conn_at-same_heap r c t t' h ∙ d.conns r c;
  log = w ∙ d.log;
}

unfoldable pub act_of : Call → Relay → Act
act_of (began writes k t client port ext) s = elim (lookup client s) [
  | none ↦ quiet
  | some q ↦ if writes && is_some (get q s.heap) then adds q k (tcp_ext ext) else quiet
]
act_of (carried writes b bytes) s = quiet
act_of (ended writes b) s = takes b.session b.conn_id
act_of (heard writes q (data_in c (some bytes))) s = writes_to q c bytes
act_of (heard writes q (close_in c)) s = takes q c
act_of (heard writes q f) s = quiet

refused_conn :
    (k t : String) (e : ExtConn) (port : ℤ) (x : ClientSession)
    → (open_conn false k t tcp e port x).1.conns ≡ x.conns
unfolding open_conn send
refused_conn k t e port x = refl

added_conn :
    (q : ℕ) (k t : String) (e : ExtConn) (port : ℤ) (y : ClientSession) (s : Relay)
    → get q s.heap ≡ some y
    → (r : ℕ) (c : String)
    → conn_at r c (record s { heap = put q (open_conn true k t tcp e port y).1 s.heap })
      ≡ (if q == r && k == c then some e else conn_at r c s)
unfolding open_conn send
added_conn q k t e port y s h r c =
    let y' = (open_conn true k t tcp e port y).1 in
    let changed = conn_at-put q y y' s (record s { heap = put q y' s.heap }) h refl r c in
    changed ∙ elim (beq-cases q r) [
      | inl p ↦
          rw (p, beq_refl r)
            (get-put k c e y.conns
              ∙ ap (λ z. if k == c then some e else z) (sym (conn_at-known q r c y s h p)))
      | inr (apart, g) ↦ rw g refl
    ]

absent_quiet :
    (b : Bool) (q : ℕ) (k : String) (e : ExtConn) (s : Relay)
    → Does (if b && false then adds q k e else quiet) s s
absent_quiet true q k e s = nothing-Does s s refl refl
absent_quiet false q k e s = nothing-Does s s refl refl

open_at-Does :
    (writes : Bool) (q : ℕ) (k t : String) (e : ExtConn) (port : ℤ) (s : Relay)
    → Does
        (if writes && is_some (get q s.heap) then adds q k e else quiet)
        s
        (open_at writes q k t tcp e port s).1
unfolding conn_after log_of
open_at-Does writes q k t e port s = elim (Option-cases (get q s.heap)) [
  | inl n ↦ rw (open_at, n) (absent_quiet writes q k e s)
  | inr (y, h) ↦ elim (Bool-cases writes) [
    | inl w ↦
        rw (open_at, h, w)
          (record { conns = added_conn q k t e port y s h; log = sym (append-nil _) })
    | inr f ↦
        rw (open_at, h, f)
          (as_before quiet s (at q (λ x o. ((open_conn false k t tcp e port x).1, o)) s) _
            (rw (at, h) refl) (rw (at, h) refl)
            (quiet-Does q (λ x o. ((open_conn false k t tcp e port x).1, o)) s
              (λ x o. (refused_conn k t e port x, refl))))
  ]
]

pub perform-Does : (c : Call) (s : Relay) → Does (act_of c s) s (perform c s)
unfolding perform act_of carry end_bridge handle_frame begin_bridge conn_after log_of
perform-Does (carried writes b bytes) s =
    quiet-Does b.session (λ y o. (send writes (data_frame b.conn_id bytes) y, o)) s
      (λ y o. (send-conns writes (data_frame b.conn_id bytes) y, refl))
perform-Does (ended writes b) s =
    as_before _ s (at b.session (λ y o. close_conn writes b.conn_id true y o) s) _ refl refl
      (takes-Does writes true b.session b.conn_id s)
perform-Does (heard writes q ping) s =
    quiet-Does q (λ y o. (send writes pong y, o)) s (λ y o. (send-conns writes pong y, refl))
perform-Does (heard writes q other) s = nothing-Does s s refl refl
perform-Does (heard writes q (data_in c none)) s = nothing-Does s s refl refl
perform-Does (heard writes q (data_in c (some bytes))) s = record {
  conns = conn_at-keeps q (λ y o. (y, write_to_external c bytes y o)) s (λ y o. refl);
  log = written-data q c bytes s;
}
perform-Does (heard writes q (close_in c)) s = takes-Does writes false q c s
perform-Does (began writes k t client port ext) s = elim (Option-cases (lookup client s)) [
  | inl n ↦ rw (perform, act_of, begin_bridge, n) (nothing-Does s _ refl refl)
  | inr (q, y) ↦
      let did = open_at-Does writes q k t (tcp_ext ext) port s in
      let call = open_at writes q k t tcp (tcp_ext ext) port s in
      elim (Bool-cases call.0) [
        | inl z ↦ rw (perform, act_of, begin_bridge, y, z) did
        | inr f ↦ rw (perform, act_of, begin_bridge, y, f) (as_before _ s call.1 _ refl refl did)
      ]
]

-- A bridge that begins adds its connection or does nothing.
pub began-act :
    (writes : Bool) (k t client : String) (port : ℤ) (ext : ℕ) (s : Relay)
    → let a = act_of (began writes k t client port ext) s in
      (a ≡ quiet) ⊎ ((q : ℕ) × (a ≡ adds q k (tcp_ext ext)))
unfolding act_of
began-act writes k t client port ext s = elim (Option-cases (lookup client s)) [
  | inl n ↦ inl (rw (act_of, n) refl)
  | inr (q, y) ↦ elim (Bool-cases (writes && is_some (get q s.heap))) [
    | inl z ↦ inr (q, rw (act_of, y, z) refl)
    | inr f ↦ inl (rw (act_of, y, f) refl)
  ]
]
