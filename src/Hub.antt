-- ===== src/Hub.antt =====
-- relay/internal/api/events.go: the dashboard's WebSocket connections and the events sent to them.
-- A connection is a number, as Go's map is keyed by the pointer. Writing to the network is not
-- modelled: what stands in a send buffer is what the writer goroutine has yet to write.
pub mod Delivery
pub mod Samples
use taildog.Prelude.{
  ℕ, ◌+◌, Bool, true, false, ◌&&◌, ◌||◌, not, nat_key, ◌==◌, Option, none, some, List, [], ◌∷◌,
  ◌++◌, if◌then◌else◌, ltb, length, String,
}
use taildog.Dict.{Dict, get, put, delete}
use taildog.Registry.{Tunnel, Client}

-- The payloads of the five kinds of events.
pub data Event : Type 0 where
  client_connected : Client → Event
  client_disconnected : String → Event
  tunnel_created : Tunnel → Event
  tunnel_deleted : String → Event

-- `send` is the channel of 64 messages, oldest first; `closed` is set when the writer has ended.
pub record WsClient : Type 0 where
  pub send : List Event
  pub closed : Bool

pub record Hub : Type 0 where
  pub clients : Dict ℕ WsClient

abbrev pub send_capacity : ℕ
send_capacity = 64

unfoldable pub new_hub : Hub
new_hub = record { clients = [] }

-- The select of Broadcast for one target. Where both the channel and `closed` are ready, Go picks
-- one at random: `pick` says which. `none` means that the client is removed.
unfoldable pub offer : Bool → Event → WsClient → Option WsClient
offer pick e c =
    if ltb (length c.send) send_capacity && (pick || not c.closed)
    then some (record c { send = c.send ++ e ∷ [] })
    else none

-- Broadcast. `picks` answers for each target where the select has a choice.
unfoldable pub broadcast_to : (ℕ → Bool) → Event → Dict ℕ WsClient → Dict ℕ WsClient
unfolding offer
broadcast_to picks e [] = []
broadcast_to picks e ((k, c) ∷ rest) =
    let others = broadcast_to picks e rest in
    elim (offer (picks k) e c) [ none ↦ others | some c' ↦ (k, c') ∷ others ]

unfoldable pub broadcast : (ℕ → Bool) → Event → Hub → Hub
unfolding broadcast_to
broadcast picks e h = record { clients = broadcast_to picks e h.clients }

unfoldable pub count : Hub → ℕ
count h = length h.clients

unfoldable pub add : ℕ → WsClient → Hub → Hub
add k c h = record { clients = put k c h.clients }

unfoldable pub remove : ℕ → Hub → Hub
remove k h = record { clients = delete k h.clients }

-- ServeWS: whether the upgrade succeeds is the library's; a new connection has an empty buffer.
unfoldable pub serve_ws : Bool → ℕ → Hub → Hub
unfolding add
serve_ws upgraded k h = if upgraded then add k (record { send = []; closed = false }) h else h

-- One round of the writer goroutine: it takes a message and writes it; if that fails, it
-- closes the connection and removes it.
unfoldable pub write_next : Bool → ℕ → Hub → Hub
unfolding remove
write_next written k h = elim (get k h.clients) [
  | none ↦ h
  | some c ↦ elim c.send [
    | [] ↦ h
    | e ∷ rest ↦
        if written
        then record { clients = put k (record c { send = rest }) h.clients }
        else remove k h
  ]
]
