-- ===== src/Client/Daemon/Frames.antt =====
-- What reaches a local connection, as the frames of the relay say it.
use taildog.Prelude.{
  refl, ap, ◌∙◌, ℕ, ℤ, String, Bool, false, string_key, ◌==◌, beq_refl, ◌≡◌, inl, inr, Option, none,
  some, List, [], ◌∷◌, ◌++◌, if◌then◌else◌, arith, Bool-cases,
}
use taildog.Dict.{get-put}
use taildog.Proxies.{Network}
use taildog.Client.Daemon.{
  RelayFrame, pong, other, open_in, data_in, close_in, Daemon, Event, frame, local_read, tick,
  leaves, on_open, resolved, dial_local, is_zero, dial_network,
}
use taildog.Client.Daemon.Effects.{Gone}
use taildog.Client.Daemon.Receiving.{Owns, effect, stream}

-- The frames that the events read.
unfoldable pub received : List Event → List RelayFrame
received [] = []
received (frame writes dial f ∷ es) = f ∷ received es
received (e ∷ es) = received es

-- The payloads for a connection, up to its close frame.
unfoldable pub payload : String → List RelayFrame → List ℕ
payload conn_id [] = []
payload conn_id (data_in c (some bytes) ∷ fs) =
    let rest = payload conn_id fs in if c == conn_id then bytes ++ rest else rest
payload conn_id (close_in c ∷ fs) =
    let rest = payload conn_id fs in if c == conn_id then [] else rest
payload conn_id (f ∷ fs) = payload conn_id fs

-- The reader of the connection does not leave.
unfoldable pub Attends : String → List Event → Type 0
Attends conn_id [] = Unit
Attends conn_id (local_read writes closes c bytes failed ∷ es) =
    (c ≡ conn_id → leaves writes bytes failed ≡ false) × Attends conn_id es
Attends conn_id (e ∷ es) = Attends conn_id es

pub stream-payload :
    (conn_id : String) (n : ℕ) (es : List Event)
    → Attends conn_id es
    → stream conn_id n es ≡ payload conn_id (received es)
unfolding received payload Attends stream effect
stream-payload conn_id n [] a = refl
stream-payload conn_id n (tick writes ∷ es) a = stream-payload conn_id n es a
stream-payload conn_id n (local_read writes closes c bytes failed ∷ es) (a, rest) =
    elim (Bool-cases (c == conn_id)) [
      | inl y ↦
          rw (stream, effect, y, a ((string_key.same_iff c conn_id).0 y))
            (stream-payload conn_id n es rest)
      | inr f ↦ rw (stream, effect, f) (stream-payload conn_id n es rest)
    ]
stream-payload conn_id n (frame writes dial pong ∷ es) a = stream-payload conn_id n es a
stream-payload conn_id n (frame writes dial other ∷ es) a = stream-payload conn_id n es a
stream-payload conn_id n (frame writes dial (open_in t c port protocol) ∷ es) a =
    stream-payload conn_id n es a
stream-payload conn_id n (frame writes dial (data_in c none) ∷ es) a = stream-payload conn_id n es a
stream-payload conn_id n (frame writes dial (data_in c (some bytes)) ∷ es) a =
    elim (Bool-cases (c == conn_id)) [
      | inl y ↦ rw (stream, effect, y) (ap (λ z. bytes ++ z) (stream-payload conn_id n es a))
      | inr f ↦ rw (stream, effect, f) (stream-payload conn_id n es a)
    ]
stream-payload conn_id n (frame writes dial (close_in c) ∷ es) a =
    elim (Bool-cases (c == conn_id)) [
      | inl y ↦ rw (stream, effect, y) refl
      | inr f ↦ rw (stream, effect, f) (stream-payload conn_id n es a)
    ]

-- An open frame whose service answers makes the connection the identifier's own.
pub on_open-Owns :
    (writes : Bool) (dial : Network → ℤ → Option ℕ) (t conn_id : String) (port : ℤ)
    (protocol : String) (n : ℕ) (s : Daemon)
    → let known = resolved s.tunnels t port protocol in
      is_zero known.0 ≡ false
      → dial (dial_network known.1) known.0 ≡ some n
      → Gone n s.local_conns
      → Owns conn_id n (on_open writes dial t conn_id port protocol s).local_conns
        × ((on_open writes dial t conn_id port protocol s).written ≡ s.written)
unfolding on_open dial_local
on_open-Owns writes dial t conn_id port protocol n s z e g =
    rw (on_open, dial_local, z, e)
      (
        record {
          has_it = get-put conn_id conn_id n s.local_conns ∙ rw (beq_refl conn_id) refl;
          alone = λ k far.
              ground (arith, get-put conn_id k n s.local_conns, g k, string_key.same_iff conn_id k);
        },
        refl,
      )
