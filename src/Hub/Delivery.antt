-- ===== src/Hub/Delivery.antt =====
-- Who gets an event, and that no send buffer overflows.
use taildog.Prelude.{
  ◌∙◌, beq-cases, refl, ℕ, ◌≤◌, ◌≡◌, Bool, true, false, ◌&&◌, ◌||◌, not, nat_key, Option, none,
  some, [], ◌∷◌, ◌++◌, arith, if◌then◌else◌, ltb, length, length-append, Option-cases, inl, inr,
  nat_beq_iff,
}
use taildog.Dict.{Dict, get, get-put}
use taildog.Hub.{Hub, WsClient, Event, offer, broadcast, broadcast_to, serve_ws}

abbrev offered : Bool → Event → Option WsClient → Option WsClient
offered pick e none = none
offered pick e (some c) = offer pick e c

-- The keys of a Go map are pairwise different.
abbrev pub HasKeysOnce : Dict ℕ WsClient → Type 0
HasKeysOnce [] = Unit {0}
HasKeysOnce ((k, c) ∷ rest) = (get k rest ≡ none) × HasKeysOnce rest

get-broadcast_to :
    (picks : ℕ → Bool) (e : Event) (k : ℕ) (m : Dict ℕ WsClient)
    → HasKeysOnce m
    → get k (broadcast_to picks e m) ≡ offered (picks k) e (get k m)
unfolding get broadcast_to
get-broadcast_to picks e k [] d = refl
get-broadcast_to picks e k ((j, c) ∷ rest) d = elim (beq-cases j k) [
  | inl s ↦ rw (← s) (ground (arith, get-broadcast_to picks e j rest d.1, d.0, nat_beq_iff j j))
  | inr (ne, f) ↦ ground (arith, get-broadcast_to picks e k rest d.1)
]

-- A connected client gets the event at the end of its buffer or is dropped: it is dropped if the
-- buffer is full, kept if there is room and its writer lives, and where there is room and the
-- writer has ended, the choice of Go's select decides.
pub get-broadcast :
    (picks : ℕ → Bool) (e : Event) (k : ℕ) (h : Hub) (c : WsClient)
    → HasKeysOnce h.clients
    → get k h.clients ≡ some c
    → get k (broadcast picks e h).clients ≡ (
        if ltb (length c.send) 64 && (picks k || not c.closed)
        then some (record c { send = c.send ++ e ∷ [] })
        else none)
unfolding broadcast offer
get-broadcast picks e k h c d g = get-broadcast_to picks e k h.clients d ∙ rw g refl

-- The send buffers stay within their 64 messages.
abbrev pub IsBounded : Hub → Type 0
IsBounded h = (k : ℕ) (c : WsClient) → get k h.clients ≡ some c → length c.send ≤ 64

-- Broadcast keeps every send buffer within its 64 messages.
pub broadcast-IsBounded :
    (picks : ℕ → Bool) (e : Event) (h : Hub)
    → HasKeysOnce h.clients
    → IsBounded h
    → IsBounded (broadcast picks e h)
unfolding broadcast offer
broadcast-IsBounded picks e h d b k c g = elim (Option-cases (get k h.clients)) [
  | inl n ↦ let p = get-broadcast_to picks e k h.clients d in ground (arith, p, n)
  | inr (c0, s) ↦
      let p = get-broadcast_to picks e k h.clients d in
      ground (arith, p, s, length-append c0.send (e ∷ []))
]

-- A connection that is accepted starts with an empty buffer, and the writer only empties it.
pub serve_ws-IsBounded :
    (upgraded : Bool) (k : ℕ) (h : Hub) → IsBounded h → IsBounded (serve_ws upgraded k h)
unfolding serve_ws
serve_ws-IsBounded true k h b j c g =
    ground (arith, get-put k j (record { send = []; closed = false }) h.clients, b j c)
serve_ws-IsBounded false k h b j c g = b j c g
