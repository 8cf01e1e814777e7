-- ===== src/Control/Samples.antt =====
-- A daemon that connects twice, and each theorem at an input.
use taildog.Prelude.{
  refl, pos, ◌≡◌, String, true, false, string_key, nat_key, none, some, [], ◌∷◌, arith,
}
use taildog.Dict.{get}
use taildog.Db.Samples.{one_user}
use taildog.Registry.{Registry, Client, get_client, get_tunnel}
use taildog.Registry.Samples.{web}
use taildog.Hub.{new_hub}
use taildog.Sessions.{ClientSession, Outside, tcp_ext, udp_ext, welcome, data_frame}
use taildog.Control.{Relay, HelloMsg, Now, accept_hello, disconnect, lookup}
use taildog.Control.Bridges.{UdpProxy, handle_datagram}
use taildog.Control.Lifecycle.{disconnect_keeps, stale_disconnect, stale_datagram}

abbrev pub laptop : ClientSession
laptop = record {
  client_id = "c1";
  sent = welcome ∷ [];
  conns = ("x1", tcp_ext 7) ∷ ("x2", udp_ext 9 "10.1.1.1:53") ∷ [];
}

abbrev quiet : Outside
quiet = record { written = []; closed = [] }

abbrev connected_client : Client
connected_client = record {
  id = "c1";
  name = "laptop";
  ip = "10.0.0.7";
  connected_at = 100;
  online = true;
  tunnels = web ∷ [];
}

abbrev small : Registry
small = record {
  pool = record { min = 10000; max = 10002; allocated = (10000, tt) ∷ []; next = 10001 };
  clients = ("c1", connected_client) ∷ [];
  tunnels = ("t1", web) ∷ [];
}

abbrev pub running : Relay
running = record {
  heap = (1, laptop) ∷ [];
  store = ("c1", 1) ∷ [];
  registry = small;
  hub = new_hub;
  db = one_user;
  outside = quiet;
}

abbrev later : Now
later = record { time = 500; audit_id = "a7"; picks = λ n. false; writes = true }

abbrev hello : HelloMsg
hello = record { kind = "hello"; client_id = "c1"; name = "laptop" }

disconnect_keeps_example :
    (lookup "c1" (disconnect later 1 "c1" "10.0.0.7" running) ≡ none)
    × (get_client (disconnect later 1 "c1" "10.0.0.7" running).registry "c1"
        ≡ some (record connected_client { online = false }))
    × ((k : String)
        → get_tunnel (disconnect later 1 "c1" "10.0.0.7" running).registry k ≡ get_tunnel small k)
unfolding get_client get
disconnect_keeps_example = disconnect_keeps later 1 "c1" "10.0.0.7" running connected_client refl

stale_disconnect_example :
    (get 2
        (disconnect later 1 "c1" "10.0.0.7"
          (accept_hello later 2 "10.0.0.9" (some hello) running).1).heap
      ≡ some (record { client_id = "c1"; sent = welcome ∷ []; conns = [] }))
    × (lookup "c1" (
          disconnect later 1 "c1" "10.0.0.7"
            (accept_hello later 2 "10.0.0.9" (some hello) running).1)
        ≡ none)
    × (get_client
          (disconnect later 1 "c1" "10.0.0.7"
            (accept_hello later 2 "10.0.0.9" (some hello) running).1).registry
          "c1"
        ≡ some (record connected_client { ip = "10.0.0.9"; online = false }))
unfolding get_client get
stale_disconnect_example =
    stale_disconnect later 2 "10.0.0.9" hello running refl refl refl later 1 "10.0.0.7"
      (λ e. ground (arith, e))

abbrev dns : UdpProxy
dns = record {
  pc = 9;
  tunnel_id = "t3";
  client_id = "c1";
  local_port = pos 53;
  addr_to_sess = ("10.1.1.1:53", record { conn_id = "x9"; last_seen = 480 }) ∷ [];
  last_cleanup = 490;
}

stale_datagram_example :
    let again =
      (accept_hello later 2 "10.0.0.9"
        (some hello)
        (disconnect later 1 "c1" "10.0.0.7" running)).1 in
    let r = handle_datagram true 500 "x10" "10.1.1.1:53" (5 ∷ []) dns again in
    (get 2 r.1.heap
      ≡ some
          (record { client_id = "c1"; sent = welcome ∷ data_frame "x9" (5 ∷ []) ∷ []; conns = [] }))
    × (get "10.1.1.1:53" r.0.addr_to_sess ≡ some (record { conn_id = "x9"; last_seen = 500 }))
unfolding get
stale_datagram_example =
    stale_datagram later later 1 2 "10.0.0.7" "10.0.0.9" hello running 500 "x10" "10.1.1.1:53"
      (5 ∷ []) dns (record { conn_id = "x9"; last_seen = 480 }) refl refl refl refl refl refl
