-- ===== src/Registry/Leaving.antt =====
-- RemoveClient keeps the invariant: it drops exactly the tunnels that the client lists.
use taildog.Prelude.{
  refl, ◌∙◌, ◌≡◌, ◌≢◌, ◌⊎◌, inl, inr, String, false, string_key, some, [], arith, In, Option-cases,
}
use taildog.Dict.{get, put}
use taildog.Registry.{Tunnel, Client, Registry, remove_client, drop_tunnels}
use taildog.Registry.System.{System, held, Inv}
use taildog.Registry.Drop.{
  clients-drop_tunnels, get-drop_tunnels_ne, some-drop_tunnels, drop_tunnels-Exclusive,
}
use taildog.Registry.Removal.{same_owner, put_cases}

module _ (s : System) (v : Inv s) (id : String) (cl : Client)
    (there : get id s.clients ≡ some cl) where
  abbrev after_drop : Registry
  after_drop = drop_tunnels cl.tunnels s.registry

  abbrev left : System
  left = record s {
    registry = record after_drop {
      clients = put id (record cl { online = false; tunnels = [] }) after_drop.clients;
    };
  }

  held-left : (k : String) (u : Tunnel) → held left k ≡ some u → held s k ≡ some u
  held-left k u g = elim (Option-cases (get k after_drop.tunnels)) [
    | inl e ↦ elim (Option-cases (get k s.tunnels)) [
      | inl e' ↦ rw e' (rw e at g)
      | inr (w, e') ↦ cc (v.apart k w e', let p : get k s.pending ≡ some u = rw e at g in p)
    ]
    | inr (w, e) ↦ ground (arith, some-drop_tunnels k w cl.tunnels s.registry e)
  ]

  other_listed :
      (c : String) (dl : Client) (u : Tunnel)
      → id ≢ c
      → get c s.clients ≡ some dl
      → In u dl.tunnels
      → (get u.id after_drop.tunnels ≡ some u) × (u.client_id ≡ c)
  other_listed c dl u ne g i =
      let (a, b) = v.listed c dl u g i in
      (
        get-drop_tunnels_ne u.id cl.tunnels s.registry
              (λ w j e. ne (same_owner s v id c cl dl w u there g j i e))
            ∙ a,
        b,
      )

  left_cases :
      (c : String) (dl : Client)
      → get c left.clients ≡ some dl
      → (dl.tunnels ≡ []) ⊎ ((id ≢ c) × (get c s.clients ≡ some dl))
  left_cases c dl g =
      elim (put_cases s v id (record cl { online = false; tunnels = [] }) c dl
        (rw clients-drop_tunnels at g)) [ inl (e, n) ↦ inl (rw n refl) | inr (ne, o) ↦ inr (ne, o) ]

  left-Inv : Inv left
  left-Inv = record {
    exclusive = drop_tunnels-Exclusive s.pending cl.tunnels s.registry (record {
      exclusive = v.exclusive;
      apart = v.apart;
      there = λ t i. (v.listed id cl t there i).0;
      once = v.once id cl there;
    });
    apart = λ k u g. v.apart k u (some-drop_tunnels k u cl.tunnels s.registry g);
    live = λ k u g. v.live k u (held-left k u g);
    listed = λ c dl u g i. elim (left_cases c dl g) [
      | inl e ↦ absurd (rw e at i)
      | inr (ne, o) ↦ other_listed c dl u ne o i
    ];
    once = λ c dl g. elim (left_cases c dl g) [ inl e ↦ rw e tt | inr (ne, o) ↦ v.once c dl o ];
  }

pub remove_client-Inv :
    (s : System)
    → Inv s
    → (id : String) → Inv (record s { registry = (remove_client s.registry id).0 })
remove_client-Inv s v id = elim (Option-cases (get id s.clients)) [
  | inl e ↦ unfold remove_client in rw (e, remove_client) v
  | inr (cl, e) ↦ unfold remove_client in rw (e, remove_client) (left-Inv s v id cl e)
]
