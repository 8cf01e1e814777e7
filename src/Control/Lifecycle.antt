-- ===== src/Control/Lifecycle.antt =====
-- What a control connection leaves of the registry when it ends, alone and after a newer one.
use taildog.Prelude.{
  refl, ap, ◌∙◌, ◌+◌, ℕ, ◌≡◌, ◌≢◌, inl, inr, String, Bool, true, false, string_key, nat_key, ◌==◌,
  none, some, List, [], ◌∷◌, ◌++◌, ltb, beq_refl, beq_ne, Option-cases,
}
use taildog.Dict.{get, delete, get-put, get-delete}
use taildog.Registry.{
  Registry, Client, add_client, mark_offline, client_on_connect, get_client, get_tunnel,
}
use taildog.Sessions.{
  ClientSession, Outside, new_client_session, send, welcome, close_all_external, data_frame,
}
use taildog.Control.{Relay, HelloMsg, Now, accept_hello, disconnect, lookup, set, del, at}
use taildog.Control.Bridges.{UdpProxy, UdpVirtualSession, handle_datagram, deliver, clean_up}

get-mark_offline :
    (r : Registry) (c : String) (x : Client)
    → get_client r c ≡ some x
    → get_client (mark_offline r c) c ≡ some (record x { online = false })
unfolding get_client mark_offline
get-mark_offline r c x e =
    rw (e, mark_offline) (rw (get-put c c (record x { online = false }) r.clients, beq_refl c) refl)

tunnels-mark_offline : (r : Registry) (c : String) → (mark_offline r c).tunnels ≡ r.tunnels
unfolding mark_offline
tunnels-mark_offline r c = elim (Option-cases (get c r.clients)) [
  | inl n ↦ rw (n, mark_offline) refl
  | inr (x, e) ↦ rw (e, mark_offline) refl
]

store-at :
    (p : ℕ) (f : ClientSession → Outside → ClientSession × Outside) (s : Relay)
    → (at p f s).store ≡ s.store
store-at p f s = elim (Option-cases (get p s.heap)) [
  | inl n ↦ rw (at, n) refl
  | inr (x, e) ↦ rw (at, e) refl
]

-- The store and the registry do not depend on the heap.
disconnect_lem :
    (i : Now) (p : ℕ) (c ip : String) (s : Relay)
    → ((disconnect i p c ip s).store ≡ delete c s.store)
      × ((disconnect i p c ip s).registry ≡ mark_offline s.registry c)
unfolding disconnect del
disconnect_lem i p c ip s = (store-at p (λ x o. close_all_external x o) (del c s), refl)

module _ (i : Now) (p : ℕ) (c ip : String) (s : Relay) (x : Client)
    (known : get_client s.registry c ≡ some x) where
  -- When the control connection of a known client ends, its entry of the store is gone and the
  -- client is offline, with its other fields as they were, and every tunnel stays registered.
  pub disconnect_keeps :
      (lookup c (disconnect i p c ip s) ≡ none)
      × (get_client (disconnect i p c ip s).registry c ≡ some (record x { online = false }))
      × ((k : String) → get_tunnel (disconnect i p c ip s).registry k ≡ get_tunnel s.registry k)
  unfolding lookup get_tunnel
  disconnect_keeps =
      let (store, registry) = disconnect_lem i p c ip s in
      (
        rw (store, get-delete c c s.store, beq_refl c) refl,
        rw registry (get-mark_offline s.registry c x known),
        λ k. rw (registry, tunnels-mark_offline s.registry c) refl,
      )

heap-at :
    (p q : ℕ) (f : ClientSession → Outside → ClientSession × Outside) (s : Relay)
    → p ≢ q
    → get q (at p f s).heap ≡ get q s.heap
heap-at p q f s ne = elim (Option-cases (get p s.heap)) [
  | inl n ↦ rw (at, n) refl
  | inr (x, e) ↦ rw (at, e) (rw (get-put p q (f x s.outside).0 s.heap, beq_ne p q ne) refl)
]

heap_own-at :
    (p : ℕ) (f : ClientSession → Outside → ClientSession × Outside) (s : Relay) (x : ClientSession)
    → get p s.heap ≡ some x
    → get p (at p f s).heap ≡ some (f x s.outside).0
heap_own-at p f s x e = rw (at, e) (rw (get-put p p (f x s.outside).0 s.heap, beq_refl p) refl)

heap-disconnect :
    (i : Now) (p q : ℕ) (c ip : String) (s : Relay)
    → p ≢ q
    → get q (disconnect i p c ip s).heap ≡ get q s.heap
unfolding disconnect del
heap-disconnect i p q c ip s ne = heap-at p q (λ x o. close_all_external x o) (del c s) ne

module _ (j : Now) (q : ℕ) (ip : String) (m : HelloMsg) (s : Relay)
    (hello : (m.kind == "hello") ≡ true) (named : (m.client_id == "") ≡ false)
    (written : j.writes ≡ true) where
  abbrev after_hello : Bool × Relay
  after_hello = accept_hello j q ip (some m) s

  -- A hello with a client id whose welcome can be written is accepted: the store leads to a new
  -- session that has sent the welcome and bridges nothing, and the client is registered as it is on
  -- a connect.
  pub accept_hello_lem :
      (after_hello.0 ≡ true)
      × (lookup m.client_id after_hello.1 ≡ some q)
      × (get q after_hello.1.heap
          ≡ some (record { client_id = m.client_id; sent = welcome ∷ []; conns = [] }))
      × (get_client after_hello.1.registry m.client_id
          ≡ some
              (client_on_connect (get_client s.registry m.client_id) m.client_id m.name ip j.time))
  unfolding accept_hello set lookup get_client add_client send new_client_session
  accept_hello_lem =
      let x : ClientSession = record { client_id = m.client_id; sent = welcome ∷ []; conns = [] } in
      let joined =
        client_on_connect (get m.client_id s.registry.clients) m.client_id m.name ip j.time in
      rw (hello, named, written)
        (
          refl,
          rw (get-put m.client_id m.client_id q s.store, beq_refl m.client_id) refl,
          rw (get-put q q x s.heap, beq_refl q) refl,
          rw (get-put m.client_id m.client_id joined s.registry.clients, beq_refl m.client_id) refl,
        )

  -- When a daemon has connected again, with the welcome written, and a connection with an older
  -- session ends after that, the new session stays on the heap, but the store no longer leads to it
  -- and the client is offline.
  pub stale_disconnect :
      (k : Now) (p : ℕ) (old_ip : String)
      → p ≢ q
      → let s' = disconnect k p m.client_id old_ip after_hello.1 in
        (get q s'.heap ≡ some (record { client_id = m.client_id; sent = welcome ∷ []; conns = [] }))
        × (lookup m.client_id s' ≡ none)
        × (get_client s'.registry m.client_id
            ≡ some
                (record (client_on_connect
                  (get_client s.registry m.client_id)
                  m.client_id
                  m.name
                  ip
                  j.time) { online = false }))
  stale_disconnect k p old_ip ne =
      let (accepted, stored, session, joined) = accept_hello_lem in
      let kept =
        disconnect_keeps k p m.client_id old_ip after_hello.1
          (client_on_connect (get_client s.registry m.client_id) m.client_id m.name ip j.time)
          joined in
      (heap-disconnect k p q m.client_id old_ip after_hello.1 ne ∙ session, kept.0, kept.1)

-- A datagram from an address with a virtual session goes to the session that the store has for the
-- client, as one data frame, and its time is renewed.
datagram_known :
    (now : ℕ) (new_id addr : String) (bytes : List ℕ) (u : UdpProxy) (s : Relay) (q : ℕ)
    (x : ClientSession) (v : UdpVirtualSession)
    → lookup u.client_id s ≡ some q
    → get q s.heap ≡ some x
    → get addr u.addr_to_sess ≡ some v
    → ltb (u.last_cleanup + 60) now ≡ false
    → let r = handle_datagram true now new_id addr bytes u s in
      (get q r.1.heap ≡ some (record x { sent = x.sent ++ data_frame v.conn_id bytes ∷ [] }))
      × (get addr r.0.addr_to_sess ≡ some (record v { last_seen = now }))
unfolding handle_datagram deliver clean_up send
datagram_known now new_id addr bytes u s q x v stored session known recent =
    rw (stored, handle_datagram, known, recent)
      (
        heap_own-at q (λ y o. (send true (data_frame v.conn_id bytes) y, o)) s x session,
        rw (get-put addr addr (record v { last_seen = now }) u.addr_to_sess, beq_refl addr) refl,
      )

-- A client's connection ends and its daemon connects again with a hello whose welcome can be
-- written. A datagram from an address that has a virtual session from before then goes to the new
-- session as a data frame of the old connection right after the welcome: no open frame is sent, the
-- session knows no such connection, and the virtual session's time is renewed; no cleanup is due.
pub stale_datagram :
    (k j : Now) (p q : ℕ) (old_ip ip : String) (m : HelloMsg) (s : Relay) (now : ℕ)
    (new_id addr : String) (bytes : List ℕ) (u : UdpProxy) (v : UdpVirtualSession)
    → (m.kind == "hello") ≡ true
    → (m.client_id == "") ≡ false
    → j.writes ≡ true
    → u.client_id ≡ m.client_id
    → get addr u.addr_to_sess ≡ some v
    → ltb (u.last_cleanup + 60) now ≡ false
    → let again = (accept_hello j q ip (some m) (disconnect k p m.client_id old_ip s)).1 in
      let r = handle_datagram true now new_id addr bytes u again in
      (get q r.1.heap
        ≡ some (record {
          client_id = m.client_id;
          sent = welcome ∷ data_frame v.conn_id bytes ∷ [];
          conns = [];
        }))
      × (get addr r.0.addr_to_sess ≡ some (record v { last_seen = now }))
stale_datagram k j p q old_ip ip m s now new_id addr bytes u v hello named written own known
      recent =
    let gone = disconnect k p m.client_id old_ip s in
    let (accepted, stored, session, joined) = accept_hello_lem j q ip m gone hello named written in
    let again = (accept_hello j q ip (some m) gone).1 in
    let fresh : ClientSession = record {
      client_id = m.client_id;
      sent = welcome ∷ [];
      conns = [];
    } in
    datagram_known now new_id addr bytes u again q fresh v (ap (λ c. lookup c again) own ∙ stored)
      session known recent
