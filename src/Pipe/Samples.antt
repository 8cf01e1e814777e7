-- ===== src/Pipe/Samples.antt =====
-- A relay with one session and the daemon at the other end, and the theorem there.
pub mod Replying
use taildog.Prelude.{refl, ◌≡◌, String, true, some, List, [], ◌∷◌, ◌++◌, string_key, nat_key}
use taildog.Dict.{get, put, delete}
use taildog.Proxies.{Network, tcp, udp}
use taildog.Sessions.{
  ClientSession, Frame, pong, welcome, open_frame, data_frame, close_frame, udp_ext,
}
use taildog.Control.{ping, handle_frame}
use taildog.Control.Bridges.{Bridge, end_bridge, carry}
use taildog.Control.Samples.{laptop, running}
use taildog.Client.Daemon.{RelayFrame, open_in, data_in, close_in, other, Event, frame, run, tick}
use taildog.Client.Daemon.Effects.{written_to, AllApart, IsApart}
use taildog.Client.Daemon.Frames.{received, Attends}
use taildog.Client.Samples.Running.{refuses, bridged, bridged-Owns}
use taildog.Pipe.{Call, carried, ended, heard, perform_all, carried_bytes, IsFaithful}
use taildog.Pipe.Outward.{run-perform_all}

abbrev network_text : Network → String
network_text tcp = "tcp"
network_text udp = "udp"

abbrev decoded : Frame → RelayFrame
decoded welcome = other
decoded pong = RelayFrame.pong
decoded (open_frame t c port net) = open_in t c port (network_text net)
decoded (data_frame c bytes) = data_in c (some bytes)
decoded (close_frame c) = close_in c

decoded-IsFaithful : IsFaithful decoded
decoded-IsFaithful = record {
  pongs = refl;
  opens = λ t c port net. (network_text net, refl);
  payloads = λ c bytes. refl;
  closes = λ c. refl;
}

abbrev pub bridge : Bridge
bridge = record { session = 1; conn_id = "x1"; ext = 7 }

abbrev frames : List Frame
frames = data_frame "x1" (1 ∷ 2 ∷ []) ∷ pong ∷ data_frame "x1" (3 ∷ []) ∷ close_frame "x1" ∷ []

abbrev after : ClientSession
after = record {
  client_id = "c1";
  sent = welcome ∷ frames;
  conns = ("x2", udp_ext 9 "10.1.1.1:53") ∷ [];
}

-- Two chunks around a ping of the daemon, and the end of the bridge.
abbrev calls : List Call
calls =
    carried true bridge (1 ∷ 2 ∷ [])
    ∷ heard true 1 ping
    ∷ carried true bridge (3 ∷ [])
    ∷ ended true bridge
    ∷ []

abbrev events : List Event
events =
    frame true refuses (data_in "x1" (some (1 ∷ 2 ∷ [])))
    ∷ frame true refuses RelayFrame.pong
    ∷ tick true
    ∷ frame true refuses (data_in "x1" (some (3 ∷ [])))
    ∷ frame true refuses (close_in "x1")
    ∷ []

run-perform_all_example :
    written_to 5 (run events bridged).written ≡ written_to 5 [] ++ carried_bytes 1 "x1" calls
unfolding perform_all get put AllApart IsApart Attends received end_bridge carry handle_frame delete
run-perform_all_example =
    run-perform_all 1 decoded decoded-IsFaithful "x1" 5 calls running laptop after frames events
      bridged refl refl refl refl bridged-Owns (tt, (tt, (tt, (tt, (tt, tt))))) tt
