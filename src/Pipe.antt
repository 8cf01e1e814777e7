-- ===== src/Pipe.antt =====
-- The relay and a daemon together: relay/server/control.go and proxy.go at one end of a connection,
-- client/internal/daemon/daemon.go at the other. What the goroutines of the relay do is a list of
-- calls; `arrives` stands for encoding/json and base64 between the two ends.
pub mod Sending
pub mod Outward
pub mod Connections
pub mod Written
pub mod Acts
pub mod Inward
pub mod Replies
pub mod Return
pub mod Samples
use taildog.Prelude.{
  ℕ, ℤ, String, Bool, true, false, ◌&&◌, nat_key, string_key, ◌==◌, Option, none, some, List, [],
  ◌∷◌, ◌++◌, ◌≡◌, if◌then◌else◌,
}
use taildog.Dict.{get}
use taildog.Proxies.{Network}
use taildog.Sessions.{Frame, pong, open_frame, data_frame, close_frame}
use taildog.Control.{Relay, InFrame, ping, handle_frame, lookup}
use taildog.Control.Bridges.{Bridge, begin_bridge, carry, end_bridge}
use taildog.Client.Daemon.{RelayFrame, data_in, close_in}

-- What the goroutines of the relay do with sessions.
pub data Call : Type 0 where
  began : Bool → String → String → String → ℤ → ℕ → Call
  carried : Bool → Bridge → List ℕ → Call
  ended : Bool → Bridge → Call
  heard : Bool → ℕ → InFrame → Call

unfoldable pub perform : Call → Relay → Relay
perform (began writes conn_id tunnel_id client_id port ext) s =
    (begin_bridge writes conn_id tunnel_id client_id port ext s).1
perform (carried writes b bytes) s = carry writes b bytes s
perform (ended writes b) s = end_bridge writes b s
perform (heard writes p f) s = handle_frame writes p f s

unfoldable pub perform_all : List Call → Relay → Relay
unfolding perform
perform_all [] s = s
perform_all (c ∷ cs) s = perform_all cs (perform c s)

-- What a peer outside sent on the bridge of the session `p` with that identifier, as far as frames
-- could be written, up to the end of the bridge.
unfoldable pub carried_bytes : ℕ → String → List Call → List ℕ
carried_bytes p conn_id [] = []
carried_bytes p conn_id (carried writes b bytes ∷ cs) =
    let rest = carried_bytes p conn_id cs in
    if b.session == p && writes && b.conn_id == conn_id then bytes ++ rest else rest
carried_bytes p conn_id (ended writes b ∷ cs) =
    let rest = carried_bytes p conn_id cs in
    if b.session == p && writes && b.conn_id == conn_id then [] else rest
carried_bytes p conn_id (c ∷ cs) = carried_bytes p conn_id cs

-- What json and base64 decode is what they encoded.
pub record IsFaithful (arrives : Frame → RelayFrame) : Type 0 where
  pub pongs : arrives pong ≡ RelayFrame.pong
  pub opens :
      (t c : String) (port : ℤ) (net : Network)
      → (protocol : String) × (arrives (open_frame t c port net)
          ≡ RelayFrame.open_in t c port protocol)
  pub payloads :
      (c : String) (bytes : List ℕ) → arrives (data_frame c bytes) ≡ data_in c (some bytes)
  pub closes : (c : String) → arrives (close_frame c) ≡ close_in c
