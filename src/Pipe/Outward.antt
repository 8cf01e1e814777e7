-- ===== src/Pipe/Outward.antt =====
-- From a peer outside to the local service.
use taildog.Prelude.{
  refl, sym, ap, ◌∙◌, ℕ, ℤ, String, Bool, true, false, ◌&&◌, nat_key, string_key, ◌==◌, ◌≡◌, inl,
  inr, some, List, [], ◌∷◌, ◌++◌, map, if◌then◌else◌, Option-cases,
}
use mathlib.Core.Option.{some_inj}
use mathlib.Core.List.{append_cancel_left}
use taildog.Dict.{get}
use taildog.Proxies.{tcp}
use taildog.Sessions.{ClientSession, Frame, pong, open_frame, data_frame, close_frame}
use taildog.Control.{Relay, ping, other, data_in, close_in, lookup}
use taildog.Client.Daemon.{RelayFrame, Daemon, Event, run}
use taildog.Client.Daemon.Effects.{written_to, AllApart}
use taildog.Client.Daemon.Receiving.{Owns, run-stream}
use taildog.Client.Daemon.Frames.{received, payload, Attends, stream-payload}
use taildog.Pipe.{
  Call, began, carried, ended, heard, perform, perform_all, carried_bytes, IsFaithful,
}
use taildog.Pipe.Sending.{sends_of, sent_by_all, perform_all-Sends}

module _ (p : ℕ) (arrives : Frame → RelayFrame) (wire : IsFaithful arrives) (conn_id : String) where
  -- One frame, where the session is this one and the frame could be written.
  optional : Bool → Bool → Frame → List Frame
  optional here writes f = if here then (if writes then f ∷ [] else []) else []

  data-payload :
      (here writes : Bool) (c : String) (bytes : List ℕ) (fs : List Frame) (rest : List ℕ)
      → payload conn_id (map arrives fs) ≡ rest
      → payload conn_id (map arrives (optional here writes (data_frame c bytes) ++ fs))
        ≡ (if here && writes && c == conn_id then bytes ++ rest else rest)
  unfolding payload optional
  data-payload true true c bytes fs rest e =
      rw (wire.payloads c bytes) (ap (λ z. if c == conn_id then bytes ++ z else z) e)
  data-payload true false c bytes fs rest e = e
  data-payload false writes c bytes fs rest e = e

  close-payload :
      (here writes : Bool) (c : String) (fs : List Frame) (rest : List ℕ)
      → payload conn_id (map arrives fs) ≡ rest
      → payload conn_id (map arrives (optional here writes (close_frame c) ++ fs))
        ≡ (if here && writes && c == conn_id then [] else rest)
  unfolding payload optional
  close-payload true true c fs rest e =
      rw (wire.closes c) (ap (λ z. if c == conn_id then [] else z) e)
  close-payload true false c fs rest e = e
  close-payload false writes c fs rest e = e

  pong-payload :
      (here writes : Bool) (fs : List Frame)
      → payload conn_id (map arrives (optional here writes pong ++ fs))
        ≡ payload conn_id (map arrives fs)
  unfolding payload optional
  pong-payload true true fs = rw wire.pongs refl
  pong-payload true false fs = refl
  pong-payload false writes fs = refl

  open-payload :
      (here writes : Bool) (t c : String) (port : ℤ) (fs : List Frame)
      → payload conn_id (map arrives (optional here writes (open_frame t c port tcp) ++ fs))
        ≡ payload conn_id (map arrives fs)
  unfolding payload optional
  open-payload true true t c port fs = rw ((wire.opens t c port tcp).1) refl
  open-payload true false t c port fs = refl
  open-payload false writes t c port fs = refl

  call-payload :
      (c : Call) (cs : List Call) (s : Relay) (fs : List Frame)
      → payload conn_id (map arrives fs) ≡ carried_bytes p conn_id cs
      → payload conn_id (map arrives (sends_of p c s ++ fs)) ≡ carried_bytes p conn_id (c ∷ cs)
  unfolding sends_of carried_bytes payload optional
  call-payload (carried writes b bytes) cs s fs e =
      data-payload (b.session == p) writes b.conn_id bytes fs _ e
  call-payload (ended writes b) cs s fs e = close-payload (b.session == p) writes b.conn_id fs _ e
  call-payload (heard writes q ping) cs s fs e = pong-payload (q == p) writes fs ∙ e
  call-payload (heard writes q other) cs s fs e = e
  call-payload (heard writes q (data_in c bytes)) cs s fs e = e
  call-payload (heard writes q (close_in c)) cs s fs e = e
  call-payload (began writes c t client port ext) cs s fs e =
      elim (Option-cases (lookup client s)) [
        | inl n ↦ rw (sends_of, n) e
        | inr (q, y) ↦ rw (sends_of, y) (open-payload (q == p) writes t c port fs ∙ e)
      ]

  all-payload :
      (cs : List Call) (s : Relay)
      → payload conn_id (map arrives (sent_by_all p cs s)) ≡ carried_bytes p conn_id cs
  unfolding sent_by_all carried_bytes payload
  all-payload [] s = refl
  all-payload (c ∷ cs) s =
      call-payload c cs s (sent_by_all p cs (perform c s)) (all-payload cs (perform c s))

  -- While the relay's calls open, carry and end bridges and answer pings on a session, and the
  -- daemon at its other end handles the frames of the session in order, interleaved with other
  -- events, a local connection gets what the calls carried on its bridge until the bridge's end, in
  -- order and nothing else. The frames arrive as they were sent, the connection is its identifier's
  -- own, its reader does not leave, no open frame has its identifier, and a new dial answers
  -- another connection.
  pub run-perform_all :
      (n : ℕ) (cs : List Call) (s : Relay) (x y : ClientSession) (fs : List Frame) (es : List Event)
      (d : Daemon)
      → get p s.heap ≡ some x
      → get p (perform_all cs s).heap ≡ some y
      → y.sent ≡ x.sent ++ fs
      → received es ≡ map arrives fs
      → Owns conn_id n d.local_conns
      → AllApart conn_id n es
      → Attends conn_id es
      → written_to n (run es d).written ≡ written_to n d.written ++ carried_bytes p conn_id cs
  run-perform_all n cs s x y fs es d h h' grown wired owns apart attends =
      let sent = perform_all-Sends p cs x s h in
      let same : sent.now ≡ y = (some_inj).0 (sym sent.there ∙ h') in
      let new : sent_by_all p cs s ≡ fs =
        append_cancel_left x.sent _ _ (sym sent.more ∙ ap (λ z. z.sent) same ∙ grown) in
      run-stream conn_id n es d owns apart
      ∙ ap (λ z. written_to n d.written ++ z)
          (stream-payload conn_id n es attends
            ∙ ap (payload conn_id) (wired ∙ ap (map arrives) (sym new))
            ∙ all-payload cs s)
