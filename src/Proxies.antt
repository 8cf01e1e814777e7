-- ===== src/Proxies.antt =====
-- The tunnel listeners of relay/server/proxy.go (proxyStore) and the firewall rules of
-- relay/server/ufw.go. Whether the system lets a port be opened is an argument; the ufw commands that
-- are run, and the listeners that are opened and closed, are logged.
pub mod Balance
pub mod History
pub mod Samples
use taildog.Prelude.{
  ℕ, ◌+◌, String, Bool, true, false, not, string_key, nat_key, ◌==◌, Option, none, some, List, [],
  ◌∷◌, ◌++◌, map, Result, ok, err, if◌then◌else◌,
}
use taildog.Dict.{Dict, get, put, delete, values}

-- "tcp" and "udp".
pub data Network : Type 0 where
  tcp udp : Network

pub record ProxyEntry : Type 0 where
  pub protocol : Network
  pub remote_port : ℕ

pub data Verb : Type 0 where
  allow delete_allow : Verb

-- `ufw allow 80/tcp`, by way of sudo unless the relay runs as root.
pub record UfwCommand : Type 0 where
  pub sudo : Bool
  pub verb : Verb
  pub port : ℕ
  pub proto : Network

-- What ufwAvailable and os.Getuid find.
pub record Machine : Type 0 where
  pub ufw_available : Bool
  pub is_root : Bool

unfoldable pub run_ufw : Machine → Verb → ℕ → Network → List UfwCommand
run_ufw m verb port proto =
    record { sudo = not m.is_root; verb = verb; port = port; proto = proto } ∷ []

unfoldable pub ufw_allow : Machine → ℕ → Network → List UfwCommand
unfolding run_ufw
ufw_allow m port proto = if m.ufw_available then run_ufw m allow port proto else []

unfoldable pub ufw_delete : Machine → ℕ → Network → List UfwCommand
unfolding run_ufw
ufw_delete m port proto = if m.ufw_available then run_ufw m delete_allow port proto else []

-- `opened` and `closed` have the listeners that net.Listen and net.ListenPacket made, and those that
-- were closed, in their order.
pub record ProxyStore : Type 0 where
  pub entries : Dict String ProxyEntry
  pub commands : List UfwCommand
  pub opened : List ProxyEntry
  pub closed : List ProxyEntry

pub data ProxyError : Type 0 where
  listen_failed : Network → ℕ → ProxyError

unfoldable pub new_proxy_store : ProxyStore
new_proxy_store = record { entries = []; commands = []; opened = []; closed = [] }

-- startTCP and startUDP, which differ in the network only.
unfoldable pub start_on :
    Machine → Bool → Network → ℕ → String → ProxyStore → Result ProxyError (Unit {0}) × ProxyStore
unfolding ufw_allow
start_on m listens net port tunnel_id p =
    if listens
    then (
      ok tt,
      record p {
        entries = put tunnel_id (record { protocol = net; remote_port = port }) p.entries;
        commands = p.commands ++ ufw_allow m port net;
        opened = p.opened ++ record { protocol = net; remote_port = port } ∷ [];
      },
    )
    else (err (listen_failed net port), p)

-- Every protocol but "udp" listens on TCP.
abbrev pub network_of : String → Network
network_of proto = if proto == "udp" then udp else tcp

unfoldable pub start :
    Machine → Bool → String → ℕ → String → ProxyStore → Result ProxyError (Unit {0}) × ProxyStore
unfolding start_on
start m listens proto port tunnel_id p = start_on m listens (network_of proto) port tunnel_id p

abbrev pub close_entry : Machine → ProxyEntry → ProxyStore → ProxyStore
close_entry m e p = record p {
  commands = p.commands ++ ufw_delete m e.remote_port e.protocol;
  closed = p.closed ++ e ∷ [];
}

unfoldable pub stop : Machine → String → ProxyStore → ProxyStore
unfolding ufw_delete
stop m tunnel_id p = elim (get tunnel_id p.entries) [
  | none ↦ p
  | some e ↦ close_entry m e (record p { entries = delete tunnel_id p.entries })
]

unfoldable pub close_all : Machine → List ProxyEntry → ProxyStore → ProxyStore
unfolding ufw_delete
close_all m [] p = p
close_all m (e ∷ es) p = close_all m es (close_entry m e p)

unfoldable pub stop_all : Machine → ProxyStore → ProxyStore
unfolding close_all
stop_all m p = close_all m (values p.entries) (record p { entries = [] })
