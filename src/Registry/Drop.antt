-- ===== src/Registry/Drop.antt =====
-- The loop of RemoveClient: it takes the listed tunnels out of the map and gives their ports back.
use taildog.Prelude.{
  refl, ◌∙◌, ◌≡◌, ◌≢◌, inl, inr, String, string_key, none, some, List, [], ◌∷◌, arith, In, eq_iff,
  beq_ne,
}
use taildog.Dict.{Dict, get, delete, get-delete}
use taildog.Pool.{release}
use taildog.Registry.{Tunnel, Registry, drop_tunnels}
use taildog.Registry.Ledger.{Holders, Exclusive, Exclusive-remove}
use taildog.Registry.System.{holder, HasDistinctIds}

abbrev pub dropped : Tunnel → Registry → Registry
dropped t r = record r { pool = release r.pool t.remote_port; tunnels = delete t.id r.tunnels }

pub clients-drop_tunnels :
    (ts : List Tunnel) (r : Registry) → (drop_tunnels ts r).clients ≡ r.clients
unfolding drop_tunnels
clients-drop_tunnels [] r = refl
clients-drop_tunnels (t ∷ ts) r = clients-drop_tunnels ts (dropped t r)

pub get-drop_tunnels_ne :
    (k : String) (ts : List Tunnel) (r : Registry)
    → ((u : Tunnel) → In u ts → u.id ≢ k)
    → get k (drop_tunnels ts r).tunnels ≡ get k r.tunnels
unfolding drop_tunnels
get-drop_tunnels_ne k [] r ne = refl
get-drop_tunnels_ne k (t ∷ ts) r ne =
    get-drop_tunnels_ne k ts (dropped t r) (λ u i. ne u (inr i))
    ∙ rw (get-delete t.id k r.tunnels, beq_ne t.id k (ne t (inl refl)))

-- What the loop leaves in the map was there before.
pub some-drop_tunnels :
    (k : String) (u : Tunnel) (ts : List Tunnel) (r : Registry)
    → get k (drop_tunnels ts r).tunnels ≡ some u
    → get k r.tunnels ≡ some u
unfolding drop_tunnels
some-drop_tunnels k u [] r g = g
some-drop_tunnels k u (t ∷ ts) r g =
    ground (arith, some-drop_tunnels k u ts (dropped t r) g, get-delete t.id k r.tunnels)

-- The rest of the system, whose pending tunnels the loop leaves alone.
module _ (pending : Dict String Tunnel) where
  abbrev pub holds : Registry → Holders
  holds r k = holder (get k r.tunnels) (get k pending)

  pub record Ready (ts : List Tunnel) (r : Registry) : Type 0 where
    pub exclusive : Exclusive r.pool (holds r)
    pub apart : (k : String) (t : Tunnel) → get k r.tunnels ≡ some t → get k pending ≡ none
    pub there : (t : Tunnel) → In t ts → get t.id r.tunnels ≡ some t
    pub once : HasDistinctIds ts

  Ready-dropped :
      (t : Tunnel) (ts : List Tunnel) (r : Registry) → Ready (t ∷ ts) r → Ready ts (dropped t r)
  Ready-dropped t ts r h = record {
    exclusive =
        Exclusive-remove r.pool (holds r) (holds (dropped t r)) t h.exclusive
          (rw (h.there t (inl refl)))
          (λ k. ground (
            arith,
            get-delete t.id k r.tunnels,
            eq_iff t.id k,
            h.there t (inl refl),
            h.apart t.id t,
          ));
    apart = λ k u g. h.apart k u (ground (arith, get-delete t.id k r.tunnels));
    there = λ u i.
        rw (get-delete t.id u.id r.tunnels, beq_ne t.id u.id (h.once.0 u i)) (h.there u (inr i));
    once = h.once.1;
  }

  pub drop_tunnels-Exclusive :
      (ts : List Tunnel) (r : Registry)
      → Ready ts r
      → Exclusive (drop_tunnels ts r).pool (holds (drop_tunnels ts r))
  unfolding drop_tunnels
  drop_tunnels-Exclusive [] r h = h.exclusive
  drop_tunnels-Exclusive (t ∷ ts) r h =
      drop_tunnels-Exclusive ts (dropped t r) (Ready-dropped t ts r h)
