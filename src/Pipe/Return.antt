-- ===== src/Pipe/Return.antt =====
-- From the local service to a peer outside: both ends together.
use taildog.Prelude.{
  refl, sym, ap, ◌∙◌, ℕ, String, false, ◌&&◌, nat_key, string_key, ◌==◌, ◌≡◌, inl, inr, none, some,
  List, [], ◌∷◌, ◌++◌, map, if◌then◌else◌, Bool-cases,
}
use mathlib.Core.List.{append_cancel_left}
use taildog.Control.{Relay, InFrame, ping, other, data_in, close_in}
use taildog.Client.Config.{Tunnel}
use taildog.Client.Daemon.{DaemonFrame, hello, register, data_out, close_out, Daemon, Event, run}
use taildog.Pipe.{Call, heard, ended, began, carried, perform_all}
use taildog.Pipe.Written.{sent_to}
use taildog.Pipe.Inward.{Serves, AllApart, delivered, effect, perform_all-delivered}
use taildog.Pipe.Replies.{reply, read_bytes, Unopened, Replies, run-Replies}

-- What json and base64 make of the daemon's frames at the relay.
pub record IsFaithful (arrives : DaemonFrame → InFrame) : Type 0 where
  pub hellos : (c name v : String) → arrives (hello c name v) ≡ other
  pub registers : (t : Tunnel) → arrives (register t) ≡ other
  pub pings : arrives DaemonFrame.ping ≡ ping
  pub payloads : (c : String) (bytes : List ℕ) → arrives (data_out c bytes) ≡ data_in c (some bytes)
  pub closes : (c : String) → arrives (close_out c) ≡ close_in c

-- The frames that the goroutine of the session `p` reads.
unfoldable pub heard_at : ℕ → List Call → List InFrame
heard_at p [] = []
heard_at p (heard writes q f ∷ cs) = let rest = heard_at p cs in if q == p then f ∷ rest else rest
heard_at p (c ∷ cs) = heard_at p cs

-- No bridge of the session ends under the identifier.
unfoldable pub StaysOpen : ℕ → String → List Call → Type 0
StaysOpen p conn_id [] = Unit
StaysOpen p conn_id (ended writes b ∷ cs) =
    ((b.session == p && b.conn_id == conn_id) ≡ false) × StaysOpen p conn_id cs
StaysOpen p conn_id (c ∷ cs) = StaysOpen p conn_id cs

in_payload : String → List InFrame → List ℕ
in_payload conn_id [] = []
in_payload conn_id (data_in c (some bytes) ∷ fs) =
    let rest = in_payload conn_id fs in if c == conn_id then bytes ++ rest else rest
in_payload conn_id (close_in c ∷ fs) =
    let rest = in_payload conn_id fs in if c == conn_id then [] else rest
in_payload conn_id (f ∷ fs) = in_payload conn_id fs

module _ (p : ℕ) (conn_id : String) (n : ℕ) where
  delivered-in_payload :
      (cs : List Call)
      → StaysOpen p conn_id cs
      → delivered p conn_id n cs ≡ in_payload conn_id (heard_at p cs)
  unfolding StaysOpen delivered effect in_payload heard_at
  delivered-in_payload [] o = refl
  delivered-in_payload (began writes k t client port ext ∷ cs) o = delivered-in_payload cs o
  delivered-in_payload (carried writes b bytes ∷ cs) o = delivered-in_payload cs o
  delivered-in_payload (ended writes b ∷ cs) (f, o) =
      rw (delivered, effect, f) (delivered-in_payload cs o)
  delivered-in_payload (heard writes q ping ∷ cs) o = elim (Bool-cases (q == p)) [
    | inl y ↦ rw (heard_at, y) (delivered-in_payload cs o)
    | inr f ↦ rw (heard_at, f) (delivered-in_payload cs o)
  ]
  delivered-in_payload (heard writes q other ∷ cs) o = elim (Bool-cases (q == p)) [
    | inl y ↦ rw (heard_at, y) (delivered-in_payload cs o)
    | inr f ↦ rw (heard_at, f) (delivered-in_payload cs o)
  ]
  delivered-in_payload (heard writes q (data_in c none) ∷ cs) o = elim (Bool-cases (q == p)) [
    | inl y ↦ rw (heard_at, y) (delivered-in_payload cs o)
    | inr f ↦ rw (heard_at, f) (delivered-in_payload cs o)
  ]
  delivered-in_payload (heard writes q (data_in c (some bytes)) ∷ cs) o =
      elim (Bool-cases (q == p)) [
        | inr f ↦ rw (delivered, effect, heard_at, f) (delivered-in_payload cs o)
        | inl y ↦ elim (Bool-cases (c == conn_id)) [
          | inl z ↦
              rw (delivered, effect, heard_at, y, in_payload, z)
                (ap (λ l. bytes ++ l) (delivered-in_payload cs o))
          | inr f ↦ rw (delivered, effect, heard_at, y, in_payload, f) (delivered-in_payload cs o)
        ]
      ]
  delivered-in_payload (heard writes q (close_in c) ∷ cs) o = elim (Bool-cases (q == p)) [
    | inr f ↦ rw (delivered, effect, heard_at, f) (delivered-in_payload cs o)
    | inl y ↦ elim (Bool-cases (c == conn_id)) [
      | inl z ↦ rw (delivered, effect, heard_at, y, in_payload, z) refl
      | inr f ↦ rw (delivered, effect, heard_at, y, in_payload, f) (delivered-in_payload cs o)
    ]
  ]

  module _ (arrives : DaemonFrame → InFrame) (wire : IsFaithful arrives) where
    in_payload-reply :
        (fs : List DaemonFrame) → in_payload conn_id (map arrives fs) ≡ reply conn_id fs
    unfolding in_payload reply
    in_payload-reply [] = refl
    in_payload-reply (hello c name v ∷ fs) = rw (wire.hellos c name v) (in_payload-reply fs)
    in_payload-reply (register t ∷ fs) = rw (wire.registers t) (in_payload-reply fs)
    in_payload-reply (DaemonFrame.ping ∷ fs) = rw wire.pings (in_payload-reply fs)
    in_payload-reply (data_out c bytes ∷ fs) =
        rw (wire.payloads c bytes)
          (ap (λ z. if c == conn_id then bytes ++ z else z) (in_payload-reply fs))
    in_payload-reply (close_out c ∷ fs) =
        rw (wire.closes c) (ap (λ z. if c == conn_id then [] else z) (in_payload-reply fs))

    -- While the daemon's reader of a local connection sends on, interleaved with any other events,
    -- and the relay handles the daemon's frames in order, interleaved with its other calls, the
    -- peer outside gets what the local service sent in rounds whose frame could be written, in
    -- order and nothing else, up to the round that ends with a close frame. The frames arrive as
    -- they were sent; the session has the connection under its identifier and nothing else has it;
    -- no bridge ends under that identifier, none begins with it or the connection, and no open
    -- frame that the daemon handles has it.
    pub perform_all-run :
        (cs : List Call) (s : Relay) (es : List Event) (d : Daemon) (fs : List DaemonFrame)
        → Serves p conn_id n s
        → AllApart p conn_id n cs
        → StaysOpen p conn_id cs
        → Unopened conn_id es
        → (run es d).sent ≡ d.sent ++ fs
        → heard_at p cs ≡ map arrives fs
        → sent_to n (perform_all cs s).outside.written
          ≡ sent_to n s.outside.written ++ read_bytes conn_id es
    unfolding Replies
    perform_all-run cs s es d fs serves apart open_still unopened grown wired =
        let (gs, w, r) = run-Replies conn_id es d unopened in
        let same : gs ≡ fs = append_cancel_left d.sent _ _ (sym w ∙ grown) in
        perform_all-delivered p conn_id n cs s serves apart
        ∙ ap (λ z. sent_to n s.outside.written ++ z)
            (delivered-in_payload cs open_still
              ∙ ap (in_payload conn_id) (wired ∙ ap (map arrives) (sym same))
              ∙ in_payload-reply gs
              ∙ r)
