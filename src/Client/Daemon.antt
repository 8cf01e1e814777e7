-- ===== src/Client/Daemon.antt =====
-- Connect of client/internal/daemon/daemon.go: what the daemon keeps of one connection to the relay,
-- and what it does with a frame, with bytes of a local service and with a tick of the ping timer.
-- A local connection is a number, which net.Dial answers; what is written to it and that it was
-- closed is logged. Whether a frame can be written to the relay is an argument of the step.
pub mod Effects
mod Closed
pub mod Receiving
pub mod Frames
pub mod Handshake
pub mod Backoff
use taildog.Prelude.{
  ℕ, ℤ, pos, negsuc, String, Bool, true, false, not, ◌||◌, nat_key, string_key, ◌==◌, Option, none,
  some, List, [], ◌∷◌, ◌++◌, if◌then◌else◌,
}
use taildog.Dict.{Dict, get, put, delete}
use taildog.Proxies.{Network, tcp, udp}
use taildog.Client.Config.{Tunnel}

-- The frames to the relay: helloMsg, registerMsg, pingMsg and the maps with a type.
pub data DaemonFrame : Type 0 where
  hello : String → String → String → DaemonFrame
  register : Tunnel → DaemonFrame
  ping : DaemonFrame
  data_out : String → List ℕ → DaemonFrame
  close_out : String → DaemonFrame

-- The frames from the relay, decoded: a field that is not there has its zero value, a payload that is
-- no base64 is `none`, and a frame whose type is not known or no text is `other`.
pub data RelayFrame : Type 0 where
  pong other : RelayFrame
  open_in : String → String → ℤ → String → RelayFrame
  data_in : String → Option (List ℕ) → RelayFrame
  close_in : String → RelayFrame

pub record Daemon : Type 0 where
  pub tunnels : List Tunnel
  pub sent : List DaemonFrame
  pub local_conns : Dict String ℕ
  pub written : List (ℕ × List ℕ)
  pub closed : List ℕ

-- safeEncode. A frame that cannot be written is lost.
unfoldable pub safe_encode : Bool → DaemonFrame → Daemon → Daemon
safe_encode writes f s = if writes then record s { sent = s.sent ++ f ∷ [] } else s

unfoldable pub hang_up : String → Daemon → Daemon
hang_up conn_id s = record s {
  local_conns = delete conn_id s.local_conns;
  closed = elim (get conn_id s.local_conns) [ none ↦ s.closed | some c ↦ s.closed ++ c ∷ [] ];
}

unfoldable pub close_local : Bool → String → Bool → Daemon → Daemon
unfolding safe_encode hang_up
close_local writes conn_id send_frame s =
    if send_frame
    then safe_encode writes (close_out conn_id) (hang_up conn_id s)
    else hang_up conn_id s

abbrev pub is_zero : ℤ → Bool
is_zero (pos n) = n == 0
is_zero (negsuc n) = false

-- The first tunnel of that identifier gives what the relay did not send.
unfoldable pub fall_back : List Tunnel → String → ℤ → String → ℤ × String
fall_back [] tunnel_id port protocol = (port, protocol)
fall_back (t ∷ ts) tunnel_id port protocol =
    let rest = fall_back ts tunnel_id port protocol in
    if t.id == tunnel_id
    then (
      if is_zero port then t.local_port else port,
      if protocol == "" then t.protocol else protocol,
    )
    else rest

abbrev pub dial_network : String → Network
dial_network protocol = if protocol == "udp" then udp else tcp

-- Once the port is known; `dial` is net.Dial on localhost.
unfoldable pub dial_local : Bool → (Network → ℤ → Option ℕ) → String → ℤ → String → Daemon → Daemon
unfolding safe_encode
dial_local writes dial conn_id port protocol s =
    if is_zero port
    then safe_encode writes (close_out conn_id) s
    else elim (dial (dial_network protocol) port) [
      | none ↦ safe_encode writes (close_out conn_id) s
      | some c ↦ record s { local_conns = put conn_id c s.local_conns }
    ]

unfoldable pub resolved : List Tunnel → String → ℤ → String → ℤ × String
unfolding fall_back
resolved tunnels tunnel_id port protocol =
    if is_zero port || protocol == ""
    then fall_back tunnels tunnel_id port protocol
    else (port, protocol)

unfoldable pub on_open :
    Bool → (Network → ℤ → Option ℕ) → String → String → ℤ → String → Daemon → Daemon
unfolding dial_local resolved
on_open writes dial tunnel_id conn_id port protocol s =
    let known = resolved s.tunnels tunnel_id port protocol in
    dial_local writes dial conn_id known.0 known.1 s

unfoldable pub on_data : String → List ℕ → Daemon → Daemon
on_data conn_id bytes s = elim (get conn_id s.local_conns) [
  | none ↦ s
  | some c ↦ record s { written = s.written ++ (c, bytes) ∷ [] }
]

-- One round of the frame reader.
unfoldable pub read_frame : Bool → (Network → ℤ → Option ℕ) → RelayFrame → Daemon → Daemon
unfolding on_open on_data close_local
read_frame writes dial pong s = s
read_frame writes dial other s = s
read_frame writes dial (open_in tunnel_id conn_id port protocol) s =
    on_open writes dial tunnel_id conn_id port protocol s
read_frame writes dial (data_in conn_id none) s = s
read_frame writes dial (data_in conn_id (some bytes)) s = on_data conn_id bytes s
read_frame writes dial (close_in conn_id) s = close_local writes conn_id false s

unfoldable pub tell_data : Bool → String → List ℕ → Daemon → Daemon
unfolding safe_encode
tell_data writes conn_id [] s = s
tell_data writes conn_id (b ∷ bs) s = safe_encode writes (data_out conn_id (b ∷ bs)) s

-- The reader leaves where Read failed, or a frame could not be written.
unfoldable pub leaves : Bool → List ℕ → Bool → Bool
leaves writes [] failed = failed
leaves writes (b ∷ bs) failed = failed || not writes

-- One round of the reader of a local connection: what it read, and whether Read failed. When it leaves
-- it closes the connection; `closes` is whether that frame can be written.
unfoldable pub read_local : Bool → Bool → String → List ℕ → Bool → Daemon → Bool × Daemon
unfolding tell_data leaves close_local
read_local writes closes conn_id bytes failed s =
    let told = tell_data writes conn_id bytes s in
    if leaves writes bytes failed
    then (false, close_local closes conn_id true told)
    else (true, told)

-- A tick of the ping loop; `false` ends Connect.
unfoldable pub ping_tick : Bool → Daemon → Bool × Daemon
unfolding safe_encode
ping_tick writes s = (writes, safe_encode writes ping s)

-- What the goroutines of Connect do, in the order that the locks put them in.
pub data Event : Type 0 where
  frame : Bool → (Network → ℤ → Option ℕ) → RelayFrame → Event
  local_read : Bool → Bool → String → List ℕ → Bool → Event
  tick : Bool → Event

unfoldable pub step : Event → Daemon → Daemon
unfolding read_frame read_local ping_tick
step (frame writes dial f) s = read_frame writes dial f s
step (local_read writes closes conn_id bytes failed) s =
    (read_local writes closes conn_id bytes failed s).1
step (tick writes) s = (ping_tick writes s).1

unfoldable pub run : List Event → Daemon → Daemon
unfolding step
run [] s = s
run (e ∷ es) s = run es (step e s)
