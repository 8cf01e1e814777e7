-- ===== src/Pipe/Replies.antt =====
-- From the local service to a peer outside: the daemon's frames.
use taildog.Prelude.{
  refl, sym, ap, ◌∙◌, ℕ, ℤ, String, Bool, true, false, ◌&&◌, nat_key, string_key, ◌==◌, beq_ne, ◌≡◌,
  ◌≢◌, inl, inr, append-nil, append_assoc, Option, none, some, List, [], ◌∷◌, ◌++◌, if◌then◌else◌,
  arith, Bool-cases, Option-cases,
}
use taildog.Dict.{get}
use taildog.Proxies.{Network}
use taildog.Client.Daemon.{
  DaemonFrame, data_out, close_out, ping, pong, other, data_in, close_in, open_in, Daemon, Event,
  frame, local_read, tick, run, step, read_frame, read_local, tell_data, leaves, close_local,
  hang_up, safe_encode, on_open, resolved, dial_local, is_zero, dial_network, on_data, ping_tick,
}

-- The payloads of a connection in the daemon's frames, up to its close frame.
unfoldable pub reply : String → List DaemonFrame → List ℕ
reply conn_id [] = []
reply conn_id (data_out c bytes ∷ fs) =
    let rest = reply conn_id fs in if c == conn_id then bytes ++ rest else rest
reply conn_id (close_out c ∷ fs) = let rest = reply conn_id fs in if c == conn_id then [] else rest
reply conn_id (f ∷ fs) = reply conn_id fs

-- What the local service of a connection sent in one round of its reader, as far as frames could be
-- written, and whether the round ends with the close frame.
unfoldable pub brings : String → Event → List ℕ × Bool
brings conn_id (local_read writes closes c bytes failed) = (
  if c == conn_id && writes then bytes else [],
  c == conn_id && (leaves writes bytes failed && closes),
)
brings conn_id e = ([], false)

unfoldable pub read_bytes : String → List Event → List ℕ
unfolding brings
read_bytes conn_id [] = []
read_bytes conn_id (e ∷ es) =
    let rest = read_bytes conn_id es in
    (brings conn_id e).0 ++ (if (brings conn_id e).1 then [] else rest)

-- No open frame has the identifier.
unfoldable pub Unopened : String → List Event → Type 0
Unopened conn_id [] = Unit
Unopened conn_id (frame writes dial (open_in t c port protocol) ∷ es) =
    (c ≢ conn_id) × Unopened conn_id es
Unopened conn_id (e ∷ es) = Unopened conn_id es

-- The frames that an event adds.
data Told (conn_id : String) (d d' : Daemon) (bytes : List ℕ) (stops : Bool) : Type 0 where
  told :
      (fs : List DaemonFrame)
      → d'.sent ≡ d.sent ++ fs
      → ((gs : List DaemonFrame)
          → reply conn_id (fs ++ gs) ≡ bytes ++ (if stops then [] else reply conn_id gs))
      → Told conn_id d d' bytes stops

encode-Told :
    (conn_id : String) (writes : Bool) (f : DaemonFrame) (d : Daemon)
    → ((gs : List DaemonFrame) → reply conn_id (f ∷ gs) ≡ reply conn_id gs)
    → Told conn_id d (safe_encode writes f d) [] false
unfolding safe_encode
encode-Told conn_id true f d k = told (f ∷ []) refl k
encode-Told conn_id false f d k = told [] (sym (append-nil d.sent)) (λ gs. refl)

quiet-Told : (conn_id : String) (d d' : Daemon) → d'.sent ≡ d.sent → Told conn_id d d' [] false
quiet-Told conn_id d d' e = told [] (e ∙ sym (append-nil d.sent)) (λ gs. refl)

close_out-Told :
    (conn_id c : String) (writes : Bool) (d : Daemon)
    → Told conn_id d (safe_encode writes (close_out c) d) [] (c == conn_id && writes)
unfolding safe_encode reply
close_out-Told conn_id c true d =
    told (close_out c ∷ []) refl
      (λ gs. elim (Bool-cases (c == conn_id)) [ inl y ↦ rw y refl | inr f ↦ rw f refl ])
close_out-Told conn_id c false d =
    told [] (sym (append-nil d.sent))
      (λ gs. elim (Bool-cases (c == conn_id)) [ inl y ↦ rw y refl | inr f ↦ rw f refl ])

tell_data-Told :
    (conn_id c : String) (writes : Bool) (bytes : List ℕ) (d : Daemon)
    → Told conn_id d
        (tell_data writes c bytes d)
        (if c == conn_id && writes then bytes else [])
        false
unfolding tell_data safe_encode reply
tell_data-Told conn_id c writes [] d =
    told [] (sym (append-nil d.sent))
      (λ gs. elim (Bool-cases (c == conn_id && writes)) [ inl y ↦ rw y refl | inr f ↦ rw f refl ])
tell_data-Told conn_id c true (b ∷ bs) d =
    told (data_out c (b ∷ bs) ∷ []) refl
      (λ gs. elim (Bool-cases (c == conn_id)) [ inl y ↦ rw y refl | inr f ↦ rw f refl ])
tell_data-Told conn_id c false (b ∷ bs) d =
    told [] (sym (append-nil d.sent))
      (λ gs. elim (Bool-cases (c == conn_id)) [ inl y ↦ rw y refl | inr f ↦ rw f refl ])

and_then :
    (conn_id : String) (d d' d'' : Daemon) (bs cs : List ℕ) (stops : Bool)
    → Told conn_id d d' bs false
    → Told conn_id d' d'' cs stops
    → Told conn_id d d'' (bs ++ cs) stops
unfolding reply
and_then conn_id d d' d'' bs cs stops (told fs e k) (told gs e' k') =
    told (fs ++ gs) (e' ∙ ap (λ z. z ++ gs) e ∙ append_assoc d.sent fs gs) (λ hs.
      ap (reply conn_id) (append_assoc fs gs hs)
      ∙ k (gs ++ hs)
      ∙ ap (λ z. bs ++ z) (k' hs)
      ∙ sym (append_assoc bs cs _))

recast :
    (conn_id : String) (d d' : Daemon) (bs cs : List ℕ) (s t : Bool)
    → bs ≡ cs
    → s ≡ t
    → Told conn_id d d' bs s
    → Told conn_id d d' cs t
recast conn_id d d' bs cs s t p q x = rw (← p, ← q) x

no_stop : (b : Bool) → false ≡ (b && false)
no_stop true = refl
no_stop false = refl

hang_up-sent : (c : String) (d : Daemon) → (hang_up c d).sent ≡ d.sent
unfolding hang_up
hang_up-sent c d = refl

close_local-Told :
    (conn_id c : String) (closes : Bool) (d : Daemon)
    → Told conn_id d (close_local closes c true d) [] (c == conn_id && closes)
unfolding close_local
close_local-Told conn_id c closes d =
    and_then conn_id d (hang_up c d) _ [] [] _
      (quiet-Told conn_id d (hang_up c d) (hang_up-sent c d))
      (close_out-Told conn_id c closes (hang_up c d))

read_local-Told :
    (conn_id : String) (writes closes : Bool) (c : String) (bytes : List ℕ) (failed : Bool)
    (d : Daemon)
    → let e = local_read writes closes c bytes failed in
      Told conn_id d (step e d) (brings conn_id e).0 (brings conn_id e).1
unfolding step read_local brings
read_local-Told conn_id writes closes c bytes failed d =
    let first = tell_data-Told conn_id c writes bytes d in
    let said = tell_data writes c bytes d in
    elim (Bool-cases (leaves writes bytes failed)) [
      | inl y ↦
          rw (step, read_local, y)
            (recast conn_id d (close_local closes c true said) _ _ _ _ (append-nil _) refl (
              and_then conn_id d said (close_local closes c true said) _ [] _ first
                (close_local-Told conn_id c closes said)))
      | inr f ↦
          rw (step, read_local, f)
            (recast conn_id d said _ _ false _ refl (no_stop (c == conn_id)) first)
    ]

dial_local-Told :
    (conn_id : String) (writes : Bool) (dial : Network → ℤ → Option ℕ) (c : String) (port : ℤ)
    (protocol : String) (d : Daemon)
    → c ≢ conn_id
    → Told conn_id d (dial_local writes dial c port protocol d) [] false
unfolding dial_local
dial_local-Told conn_id writes dial c port protocol d far =
    let refused : Told conn_id d (safe_encode writes (close_out c) d) [] false =
      recast conn_id d _ [] [] _ false refl (ground (arith, beq_ne c conn_id far))
        (close_out-Told conn_id c writes d) in
    elim (Bool-cases (is_zero port)) [
      | inl y ↦ rw (dial_local, y) refused
      | inr f ↦ elim (Option-cases (dial (dial_network protocol) port)) [
        | inl e ↦ rw (dial_local, f, e) refused
        | inr (m, e) ↦ rw (dial_local, f, e) (quiet-Told conn_id d _ refl)
      ]
    ]

-- What a list of events adds to the daemon's frames.
unfoldable pub Replies : String → List Event → Daemon → Type 0
Replies conn_id es d =
    (fs : List DaemonFrame) × ((run es d).sent ≡ d.sent ++ fs)
    × (reply conn_id fs ≡ read_bytes conn_id es)

prepend :
    (conn_id : String) (e : Event) (es : List Event) (d : Daemon)
    → Told conn_id d (step e d) (brings conn_id e).0 (brings conn_id e).1
    → Replies conn_id es (step e d)
    → Replies conn_id (e ∷ es) d
unfolding Replies run read_bytes
prepend conn_id e es d (told fs q k) (gs, w, r) = (
  fs ++ gs,
  w ∙ ap (λ z. z ++ gs) q ∙ append_assoc d.sent fs gs,
  k gs ∙ ap (λ z. (brings conn_id e).0 ++ (if (brings conn_id e).1 then [] else z)) r,
)

on_data-sent : (c : String) (bytes : List ℕ) (d : Daemon) → (on_data c bytes d).sent ≡ d.sent
unfolding on_data
on_data-sent c bytes d = elim (Option-cases (get c d.local_conns)) [
  | inl n ↦ rw (on_data, n) refl
  | inr (m, y) ↦ rw (on_data, y) refl
]

pub run-Replies :
    (conn_id : String) (es : List Event) (d : Daemon) → Unopened conn_id es → Replies conn_id es d
unfolding Replies run read_bytes reply Unopened step read_frame on_open ping_tick brings close_local
    hang_up
run-Replies conn_id [] d u = ([], sym (append-nil d.sent), refl)
run-Replies conn_id (local_read w cl c bytes failed ∷ es) d u =
    prepend conn_id (local_read w cl c bytes failed) es d
      (read_local-Told conn_id w cl c bytes failed d) (run-Replies conn_id es _ u)
run-Replies conn_id (tick w ∷ es) d u =
    prepend conn_id (tick w) es d (encode-Told conn_id w ping d (λ gs. refl))
      (run-Replies conn_id es _ u)
run-Replies conn_id (frame w dial pong ∷ es) d u =
    prepend conn_id (frame w dial pong) es d (quiet-Told conn_id d d refl)
      (run-Replies conn_id es _ u)
run-Replies conn_id (frame w dial other ∷ es) d u =
    prepend conn_id (frame w dial other) es d (quiet-Told conn_id d d refl)
      (run-Replies conn_id es _ u)
run-Replies conn_id (frame w dial (data_in c none) ∷ es) d u =
    prepend conn_id (frame w dial (data_in c none)) es d (quiet-Told conn_id d d refl)
      (run-Replies conn_id es _ u)
run-Replies conn_id (frame w dial (data_in c (some bytes)) ∷ es) d u =
    prepend conn_id (frame w dial (data_in c (some bytes))) es d
      (quiet-Told conn_id d (on_data c bytes d) (on_data-sent c bytes d))
      (run-Replies conn_id es _ u)
run-Replies conn_id (frame w dial (close_in c) ∷ es) d u =
    prepend conn_id (frame w dial (close_in c)) es d (quiet-Told conn_id d _ refl)
      (run-Replies conn_id es _ u)
run-Replies conn_id (frame w dial (open_in t c port protocol) ∷ es) d (far, u) =
    let known = resolved d.tunnels t port protocol in
    prepend conn_id (frame w dial (open_in t c port protocol)) es d
      (dial_local-Told conn_id w dial c known.0 known.1 d far) (run-Replies conn_id es _ u)
