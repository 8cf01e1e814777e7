-- ===== src/Registry/System.antt =====
-- The registry under concurrent callers. Each method runs under the registry's lock and is one step,
-- but AddTunnel takes its port before it takes the lock: it is two steps, and between them the
-- tunnel is pending. Identifiers of new tunnels are fresh, as package uuid documents.
use taildog.Prelude.{
  ℕ, ℤ, ◌≡◌, String, true, string_key, Option, none, some, List, [], ◌∷◌, In, ok, err,
}
use taildog.Dict.{Dict, get, put, delete}
use taildog.Pool.{Pool, PoolError, allocate}
use taildog.Registry.{
  Tunnel, Client, Registry, tunnel_of, register, add_client, mark_offline, remove_client,
  remove_tunnel,
}
use taildog.Registry.Ledger.{Holders, Exclusive}

pub record System : Type 0 where
  pub registry : Registry
  pub open registry use *
  pub pending : Dict String Tunnel

abbrev pub holder : Option Tunnel → Option Tunnel → Option Tunnel
holder (some t) o = some t
holder none o = o

-- A tunnel holds its port from the moment that Allocate has answered.
abbrev pub held : System → Holders
held s k = holder (get k s.tunnels) (get k s.pending)

abbrev pub reserved : System → Tunnel → Pool → System
reserved s t q = record {
  registry = record s.registry { pool = q };
  pending = put t.id t s.pending;
}

abbrev pub published : System → Tunnel → System
published s t = record { registry = register s.registry t; pending = delete t.id s.pending }

pub data Step (s : System) : System → Type 0 where
  reserve :
      (id client_id protocol : String) (local_port request : ℤ) (now port : ℕ)
      → held s id ≡ none
      → (allocate s.pool request).0 ≡ ok port
      → Step s (
          reserved s
            (tunnel_of id client_id protocol local_port port now)
            (allocate s.pool request).1)
  refuse :
      (request : ℤ) (e : PoolError)
      → (allocate s.pool request).0 ≡ err e
      → Step s (record s { registry = record s.registry { pool = (allocate s.pool request).1 } })
  publish : (t : Tunnel) → get t.id s.pending ≡ some t → Step s (published s t)
  connect :
      (id name ip : String) (now : ℕ)
      → Step s (record s { registry = (add_client s.registry id name ip now).0 })
  go_offline : (id : String) → Step s (record s { registry = mark_offline s.registry id })
  leave : (id : String) → Step s (record s { registry = (remove_client s.registry id).0 })
  remove : (id : String) → Step s (record s { registry = (remove_tunnel s.registry id).1 })

pub data Reach (s : System) : System → Type 0 where
  here : Reach s s
  next : {t u : System} → Reach s t → Step t u → Reach s u

-- The ids in a client's slice are pairwise different.
abbrev pub HasDistinctIds : List Tunnel → Type 0
HasDistinctIds [] = Unit {0}
HasDistinctIds (t ∷ ts) = ((u : Tunnel) → In u ts → (t.id ≡ u.id) → ⊥) × HasDistinctIds ts

-- What holds between two steps.
pub record Inv (s : System) : Type 0 where
  pub exclusive : Exclusive s.pool (held s)
  pub apart : (k : String) (t : Tunnel) → get k s.tunnels ≡ some t → get k s.pending ≡ none
  pub live : (k : String) (t : Tunnel) → held s k ≡ some t → t.active ≡ true
  pub listed :
      (c : String) (cl : Client) (t : Tunnel)
      → get c s.clients ≡ some cl
      → In t cl.tunnels
      → (get t.id s.tunnels ≡ some t) × (t.client_id ≡ c)
  pub once : (c : String) (cl : Client) → get c s.clients ≡ some cl → HasDistinctIds cl.tunnels
