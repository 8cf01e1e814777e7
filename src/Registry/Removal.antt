-- ===== src/Registry/Removal.antt =====
-- RemoveTunnel and RemoveClient keep the invariant.
use taildog.Prelude.{
  refl, sym, ap, ◌∙◌, ◌≡◌, ◌≢◌, ◌⊎◌, inl, inr, String, string_key, ◌==◌, none, some, arith, In,
  if◌then◌else◌, eq_iff, beq_ne, beq-cases, Option-cases, not,
}
use taildog.Dict.{Dict, get, put, delete, get-delete, get-put}
use taildog.Pool.{release}
use taildog.Registry.{Tunnel, Client, remove_tunnel, forget_tunnel, forget_owner}
use taildog.Registry.Ledger.{Exclusive-remove}
use taildog.Registry.System.{System, held, Inv, HasDistinctIds}
use taildog.Registry.Slices.{In-keep, HasDistinctIds-keep}

module _ (s : System) (v : Inv s) where
  -- The record under a key after another was put there.
  pub put_cases :
      (id : String) (nc : Client) (c : String) (cl : Client)
      → get c (put id nc s.clients) ≡ some cl
      → ((id ≡ c) × (cl ≡ nc)) ⊎ ((id ≢ c) × (get c s.clients ≡ some cl))
  put_cases id nc c cl g = elim (beq-cases id c) [
    | inl e ↦ inl (e, ground (arith, get-put id c nc s.clients, eq_iff id c))
    | inr (ne, f) ↦ inr (ne, ground (arith, get-put id c nc s.clients))
  ]

  -- Two listed tunnels with one id are listed by one client.
  pub same_owner :
      (c d : String) (cl dl : Client) (t u : Tunnel)
      → get c s.clients ≡ some cl
      → get d s.clients ≡ some dl
      → In t cl.tunnels
      → In u dl.tunnels
      → t.id ≡ u.id
      → c ≡ d
  same_owner c d cl dl t u g h i j e =
      let (a, b) = v.listed c cl t g i in
      let (a', b') = v.listed d dl u h j in
      let same : t ≡ u = cc (a, a', ap (λ k. get k s.tunnels) e) in
      sym b ∙ ap (λ (x : Tunnel). x.client_id) same ∙ b'

  module _ (id : String) (t : Tunnel) (there : get id s.tunnels ≡ some t) where
    abbrev without : Dict String Client → System
    without cs = record s {
      registry = record s.registry {
        pool = release s.pool t.remote_port;
        clients = cs;
        tunnels = delete id s.tunnels;
      };
    }

    t_id : t.id ≡ id
    t_id = v.exclusive.keyed id t (rw there refl)

    held-without :
        (cs : Dict String Client) (k : String)
        → held (without cs) k ≡ (if t.id == k then none else held s k)
    held-without cs k =
        rw t_id (ground (arith, get-delete id k s.tunnels, eq_iff id k, v.apart id t there))

    without-Inv :
        (cs : Dict String Client)
        → ((c : String) (cl : Client) (u : Tunnel)
            → get c cs ≡ some cl
            → In u cl.tunnels
            → (u.id ≢ id) × (get u.id s.tunnels ≡ some u) × (u.client_id ≡ c))
        → ((c : String) (cl : Client) → get c cs ≡ some cl → HasDistinctIds cl.tunnels)
        → Inv (without cs)
    without-Inv cs l o = record {
      exclusive =
          Exclusive-remove s.pool (held s) (held (without cs)) t v.exclusive
            (ap (held s) t_id ∙ rw there refl) (held-without cs);
      apart = λ k u g. v.apart k u (ground (arith, get-delete id k s.tunnels));
      live = λ k u g. v.live k u (ground (arith, held-without cs k));
      listed = λ c cl u g i.
          let (ne, a, b) = l c cl u g i in
          (rw (get-delete id u.id s.tunnels, beq_ne id u.id (λ e. ne (sym e))) a, b);
      once = o;
    }

    -- A client that is not the owner does not list the tunnel.
    other_listed :
        (c : String) (cl : Client) (u : Tunnel)
        → t.client_id ≢ c
        → get c s.clients ≡ some cl
        → In u cl.tunnels
        → (u.id ≢ id) × (get u.id s.tunnels ≡ some u) × (u.client_id ≡ c)
    other_listed c cl u ne g i =
        let (a, b) = v.listed c cl u g i in
        (
          (λ e.
              let same : u ≡ t = cc (a, there, ap (λ k. get k s.tunnels) e) in
              ne (sym (ap (λ (x : Tunnel). x.client_id) same) ∙ b)),
          a,
          b,
        )

    owned-Inv :
        (old : Client)
        → get t.client_id s.clients ≡ some old
        → Inv (without (put t.client_id (forget_tunnel id old) s.clients))
    owned-Inv old g =
        without-Inv (put t.client_id (forget_tunnel id old) s.clients)
          (λ c cl u h i. elim (put_cases t.client_id (forget_tunnel id old) c cl h) [
            | inl (e, n) ↦ kept c e u (rw n at i)
            | inr (ne, o) ↦ other_listed c cl u ne o i
          ])
          (λ c cl h. elim (put_cases t.client_id (forget_tunnel id old) c cl h) [
            | inl (e, n) ↦ rw n (HasDistinctIds-keep _ old.tunnels (v.once t.client_id old g))
            | inr (ne, o) ↦ v.once c cl o
          ])
      where
        kept :
            (c : String)
            → t.client_id ≡ c
            → (u : Tunnel) → In u (forget_tunnel id old).tunnels
            → (u.id ≢ id) × (get u.id s.tunnels ≡ some u) × (u.client_id ≡ c)
        kept c e u i =
            let (j, f) = In-keep (λ x. not (x.id == id)) u old.tunnels i in
            let (a, b) = v.listed t.client_id old u g j in
            ((λ s'. ground (arith, eq_iff u.id id)), a, b ∙ e)

  pub remove_tunnel-Inv :
      (id : String) → Inv (record s { registry = (remove_tunnel s.registry id).1 })
  unfolding remove_tunnel
  remove_tunnel-Inv id = elim (Option-cases (get id s.tunnels)) [
    | inl e ↦ rw (e, remove_tunnel) v
    | inr (t, e) ↦ found t e
  ]
    where
      found :
          (t : Tunnel)
          → get id s.tunnels ≡ some t
          → Inv (record s { registry = (remove_tunnel s.registry id).1 })
      found t e = elim (Option-cases (get t.client_id s.clients)) [
        | inl m ↦
            rw (e, remove_tunnel, m, forget_owner)
              (without-Inv id t e s.clients
                (λ c cl u g i.
                  other_listed id t e c cl u (λ x. cc (m, g, ap (λ k. get k s.clients) x)) g i)
                v.once)
        | inr (c, m) ↦ rw (e, remove_tunnel, m, forget_owner) (owned-Inv id t e c m)
      ]
