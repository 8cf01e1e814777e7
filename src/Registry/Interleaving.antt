-- ===== src/Registry/Interleaving.antt =====
-- What clients of the registry may rely on, whatever the order in which its callers run.
use taildog.Prelude.{refl, ap, ℕ, ◌≡◌, ◌≤◌, String, string_key, some, []}
use taildog.Dict.{get}
use taildog.Pool.{new_pool, is_allocated}
use taildog.Pool.Invariant.{new_pool-IsValid}
use taildog.Registry.{Tunnel, new_registry, tunnel_of, get_tunnel}
use taildog.Registry.System.{
  System, Inv, Step, reserve, refuse, publish, connect, go_offline, leave, remove, Reach, here,
  next,
}
use taildog.Registry.Safety.{reserved-Inv, refused-Inv, connect-Inv, go_offline-Inv}
use taildog.Registry.Publish.{published-Inv}
use taildog.Registry.Removal.{remove_tunnel-Inv}
use taildog.Registry.Leaving.{remove_client-Inv}

-- Every step of every caller keeps the invariant.
pub Step-Inv : {s t : System} → Step s t → Inv s → Inv t
Step-Inv {s} (reserve id c p lp r now port fresh e) v =
    reserved-Inv s v (tunnel_of id c p lp port now) r fresh refl e
Step-Inv {s} (refuse r x e) v = refused-Inv s v r x e
Step-Inv {s} (publish t e) v = published-Inv s v t e
Step-Inv {s} (connect id name ip now) v = connect-Inv s v id name ip now
Step-Inv {s} (go_offline id) v = go_offline-Inv s v id
Step-Inv {s} (leave id) v = remove_client-Inv s v id
Step-Inv {s} (remove id) v = remove_tunnel-Inv s v id

Reach-Inv : {s t : System} → Inv s → Reach s t → Inv t
Reach-Inv v here = v
Reach-Inv v (next r st) = Step-Inv st (Reach-Inv v r)

-- The relay at its start: NewRegistry over a new pool, and nobody in the middle of a call.
abbrev pub initial : ℕ → ℕ → System
initial lo hi = record { registry = new_registry (new_pool lo hi); pending = [] }

initial-Inv : (lo hi : ℕ) → lo ≤ hi → Inv (initial lo hi)
unfolding new_registry new_pool is_allocated get
initial-Inv lo hi h = record {
  exclusive = record {
    valid = new_pool-IsValid lo hi h;
    keyed = λ k t e. cc;
    taken = λ k t e. cc;
    distinct = λ j k t u e g r. cc;
    no_leak = λ x a. cc a;
  };
  apart = λ k t e. cc;
  live = λ k t e. cc;
  listed = λ c cl t e i. cc;
  once = λ c cl e. cc;
}

-- In every state that the relay reaches from a new registry the invariant holds: each tunnel has
-- its port to itself, each port that is taken has a tunnel, and each client's slice has just
-- tunnels of its own that are registered.
pub reachable-Inv : (lo hi : ℕ) (s : System) → lo ≤ hi → Reach (initial lo hi) s → Inv s
reachable-Inv lo hi s h r = Reach-Inv (initial-Inv lo hi h) r

-- In every state that the relay reaches from a new registry, whatever the interleaving of its
-- calls, two registered tunnels with the same remote port are the same tunnel.
pub port_exclusive :
    (lo hi : ℕ) (s : System) (j k : String) (t u : Tunnel)
    → lo ≤ hi
    → Reach (initial lo hi) s
    → get_tunnel s.registry j ≡ some t
    → get_tunnel s.registry k ≡ some u
    → t.remote_port ≡ u.remote_port
    → (j ≡ k) × (t ≡ u)
unfolding get_tunnel
port_exclusive lo hi s j k t u h r g g' e = (same, cc (g, g', ap (λ x. get x s.tunnels) same))
  where
    v : Inv s
    v = reachable-Inv lo hi s h r

    same : j ≡ k
    same = v.exclusive.distinct j k t u (rw g refl) (rw g' refl) e
