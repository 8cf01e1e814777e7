-- ===== src/Sessions.antt =====
-- relay/server/session.go: what the relay keeps of one connected daemon, and what it sends to it and
-- to the peers outside. A connection from outside is a number; what is written to it and that it was
-- closed is logged in `Outside`. Whether a frame can be written to the daemon is an argument.
pub mod Routing
use taildog.Prelude.{
  ℕ, ℤ, String, Bool, true, false, string_key, ◌==◌, Option, none, some, List, [], ◌∷◌, ◌++◌,
  Result, ok, err, if◌then◌else◌,
}
use taildog.Dict.{Dict, get, put, delete, values}
use taildog.Proxies.{Network}

-- tcpExtConn, and udpExtConn with the peer's address.
pub data ExtConn : Type 0 where
  tcp_ext : ℕ → ExtConn
  udp_ext : ℕ → String → ExtConn

-- The frames from the relay to the daemon.
pub data Frame : Type 0 where
  welcome pong : Frame
  open_frame : String → String → ℤ → Network → Frame
  data_frame : String → List ℕ → Frame
  close_frame : String → Frame

pub record Outside : Type 0 where
  pub written : List (ExtConn × List ℕ)
  pub closed : List ℕ

pub record ClientSession : Type 0 where
  pub client_id : String
  pub sent : List Frame
  pub conns : Dict String ExtConn

unfoldable pub new_client_session : String → ClientSession
new_client_session client_id = record { client_id = client_id; sent = []; conns = [] }

-- A frame that cannot be written is lost.
unfoldable pub send : Bool → Frame → ClientSession → ClientSession
send writes f s = if writes then record s { sent = s.sent ++ f ∷ [] } else s

pub data SendError : Type 0 where
  send_failed : SendError

unfoldable pub open_conn :
    Bool
    → String
    → String
    → Network
    → ExtConn
    → ℤ
    → ClientSession
    → Result SendError String × ClientSession
unfolding send
open_conn writes conn_id tunnel_id protocol ext local_port s =
    let s' = send writes (open_frame tunnel_id conn_id local_port protocol) s in
    if writes
    then (ok conn_id, record s' { conns = put conn_id ext s'.conns })
    else (err send_failed, s')

-- Close of a UDP connection does nothing: the socket is shared.
abbrev pub close_ext : ExtConn → Outside → Outside
close_ext (tcp_ext n) o = record o { closed = o.closed ++ n ∷ [] }
close_ext (udp_ext n addr) o = o

unfoldable pub close_conn : Bool → String → Bool → ClientSession → Outside → ClientSession × Outside
unfolding send
close_conn writes conn_id send_frame s o =
    let s' = record s { conns = delete conn_id s.conns } in
    (
      if send_frame then send writes (close_frame conn_id) s' else s',
      elim (get conn_id s.conns) [ none ↦ o | some c ↦ close_ext c o ],
    )

unfoldable pub write_to_external : String → List ℕ → ClientSession → Outside → Outside
write_to_external conn_id bytes s o = elim (get conn_id s.conns) [
  | none ↦ o
  | some c ↦ record o { written = o.written ++ (c, bytes) ∷ [] }
]

abbrev pub close_each : List ExtConn → Outside → Outside
close_each [] o = o
close_each (c ∷ cs) o = close_each cs (close_ext c o)

unfoldable pub close_all_external : ClientSession → Outside → ClientSession × Outside
close_all_external s o = (record s { conns = [] }, close_each (values s.conns) o)
