-- ===== src/Control/Bridges.antt =====
-- handleProxyConn and handleUDPProxy of relay/server/proxy.go: the connections and datagrams from
-- outside that are carried to a daemon. The rounds of their loops are steps; the bytes are what was
-- read, before base64.
use taildog.Prelude.{
  ℕ, ◌+◌, ℤ, String, Bool, true, false, string_key, nat_key, Option, none, some, List, [], ◌∷◌,
  Result, ok, err, if◌then◌else◌, ltb,
}
use taildog.Dict.{Dict, get, put}
use taildog.Proxies.{Network, tcp, udp}
use taildog.Sessions.{
  ExtConn, tcp_ext, udp_ext, SendError, data_frame, send, open_conn, close_conn, close_ext,
}
use taildog.Control.{Relay, at, lookup}

-- A bridged TCP connection: its session's address and its identifier.
pub record Bridge : Type 0 where
  pub session : ℕ
  pub conn_id : String
  pub ext : ℕ

abbrev hang_up : ℕ → Relay → Relay
hang_up n s = record s { outside = close_ext (tcp_ext n) s.outside }

abbrev opened : Result SendError String → Bool
opened (ok conn_id) = true
opened (err e) = false

-- sess.openConn on the session at an address, and its outcome.
abbrev pub open_at : Bool → ℕ → String → String → Network → ExtConn → ℤ → Relay → Bool × Relay
open_at writes p conn_id tunnel_id net ext local_port s = elim (get p s.heap) [
  | none ↦ (false, s)
  | some x ↦
      let call = open_conn writes conn_id tunnel_id net ext local_port x in
      (opened call.0, record s { heap = put p call.1 s.heap })
]

-- handleProxyConn up to its loop; without a session, or a frame that is written, it hangs up.
unfoldable pub begin_bridge :
    Bool → String → String → String → ℤ → ℕ → Relay → Option Bridge × Relay
unfolding lookup open_conn
begin_bridge writes conn_id tunnel_id client_id local_port n s = elim (lookup client_id s) [
  | none ↦ (none, hang_up n s)
  | some p ↦
      let call = open_at writes p conn_id tunnel_id tcp (tcp_ext n) local_port s in
      if call.0
      then (some (record { session = p; conn_id = conn_id; ext = n }), call.1)
      else (none, hang_up n call.1)
]

-- What was read goes to the daemon as one frame.
unfoldable pub carry : Bool → Bridge → List ℕ → Relay → Relay
unfolding send
carry writes b bytes s = at b.session (λ x o. (send writes (data_frame b.conn_id bytes) x, o)) s

-- The two deferred calls, last one first.
unfoldable pub end_bridge : Bool → Bridge → Relay → Relay
unfolding close_conn
end_bridge writes b s = hang_up b.ext (at b.session (λ x o. close_conn writes b.conn_id true x o) s)

pub record UdpVirtualSession : Type 0 where
  pub conn_id : String
  pub last_seen : ℕ

pub record UdpProxy : Type 0 where
  pub pc : ℕ
  pub tunnel_id : String
  pub client_id : String
  pub local_port : ℤ
  pub addr_to_sess : Dict String UdpVirtualSession
  pub last_cleanup : ℕ

-- The loop of the cleanup, over the virtual sessions in the order of insertion.
unfoldable pub expire :
    Bool
    → ℕ
    → String
    → Dict String UdpVirtualSession
    → Relay
    → Dict String UdpVirtualSession × Relay
unfolding lookup close_conn
expire writes now client_id [] s = ([], s)
expire writes now client_id ((addr, v) ∷ rest) s =
    let others = expire writes now client_id rest in
    let closed : Relay = elim (lookup client_id s) [
      | none ↦ s
      | some p ↦ at p (λ x o. close_conn writes v.conn_id true x o) s
    ] in
    if ltb (v.last_seen + 300) now then others closed else ((addr, v) ∷ (others s).0, (others s).1)

unfoldable pub clean_up : Bool → ℕ → UdpProxy → Relay → UdpProxy × Relay
unfolding expire
clean_up writes now u s =
    let swept = expire writes now u.client_id u.addr_to_sess s in
    if ltb (u.last_cleanup + 60) now
    then (record u { last_cleanup = now; addr_to_sess = swept.0 }, swept.1)
    else (u, s)

-- The data frame of a datagram, with the time noted, and then the cleanup.
unfoldable pub deliver :
    Bool → ℕ → ℕ → String → String → List ℕ → UdpProxy → Relay → UdpProxy × Relay
unfolding clean_up send
deliver writes now p addr conn_id bytes u s =
    clean_up writes now
      (record u {
        addr_to_sess = put addr (record { conn_id = conn_id; last_seen = now }) u.addr_to_sess;
      })
      (at p (λ x o. (send writes (data_frame conn_id bytes) x, o)) s)

-- One round of handleUDPProxy for a datagram from `addr`; `new_id` is used where a virtual session is new.
unfoldable pub handle_datagram :
    Bool → ℕ → String → String → List ℕ → UdpProxy → Relay → UdpProxy × Relay
unfolding lookup open_conn deliver
handle_datagram writes now new_id addr bytes u s = elim (lookup u.client_id s) [
  | none ↦ (u, s)
  | some p ↦ elim (get addr u.addr_to_sess) [
    | some v ↦ deliver writes now p addr v.conn_id bytes u s
    | none ↦
        let call = open_at writes p new_id u.tunnel_id udp (udp_ext u.pc addr) u.local_port s in
        if call.0 then deliver writes now p addr new_id bytes u call.1 else (u, call.1)
  ]
]
