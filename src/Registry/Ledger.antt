-- ===== src/Registry/Ledger.antt =====
-- Who holds which port: the tunnels by identifier, seen as a function, against the port pool.
use taildog.Prelude.{
  sym, ap, ◌∙◌, ℕ, ◌≡◌, ◌≢◌, ◌⊎◌, inl, inr, String, true, string_key, nat_key, ◌==◌, Option, none,
  some, arith, if◌then◌else◌, eq_iff, beq-cases, beq_refl, beq_ne,
}
use taildog.Pool.{Pool, is_allocated, release}
use taildog.Pool.Invariant.{IsValid, release-IsValid, is_allocated-release}
use taildog.Pool.Scan.{Takes, Same}
use taildog.Registry.{Tunnel}

abbrev pub Holders : Type 0
Holders = String → Option Tunnel

-- Each holder has its port to itself, and each port that is taken has a holder.
pub record Exclusive (p : Pool) (h : Holders) : Type 0 where
  pub valid : IsValid p
  pub keyed : (k : String) (t : Tunnel) → h k ≡ some t → t.id ≡ k
  pub taken : (k : String) (t : Tunnel) → h k ≡ some t → is_allocated p t.remote_port ≡ true
  pub distinct :
      (j k : String) (t u : Tunnel)
      → h j ≡ some t
      → h k ≡ some u
      → t.remote_port ≡ u.remote_port
      → j ≡ k
  pub no_leak :
      (x : ℕ)
      → is_allocated p x ≡ true
      → (k : String) × (t : Tunnel) × (h k ≡ some t) × (t.remote_port ≡ x)

module _ (p q : Pool) (h h' : Holders) where
  pub Exclusive-Same :
      Exclusive p h → IsValid q → Same p q → ((k : String) → h' k ≡ h k) → Exclusive q h'
  Exclusive-Same e v s w = record {
    valid = v;
    keyed = λ k t g. e.keyed k t (sym (w k) ∙ g);
    taken = λ k t g. s.effect t.remote_port ∙ e.taken k t (sym (w k) ∙ g);
    distinct = λ j k t u g g' r. e.distinct j k t u (sym (w j) ∙ g) (sym (w k) ∙ g') r;
    no_leak = λ x a. let (k, t, g, r) = e.no_leak x (sym (s.effect x) ∙ a) in (k, t, w k ∙ g, r);
  }

-- One tunnel more, on a port that was free.
module _ (p q : Pool) (h h' : Holders) (t : Tunnel) (e : Exclusive p h) (v : IsValid q)
    (take : Takes p t.remote_port q) (fresh : h t.id ≡ none)
    (w : (k : String) → h' k ≡ (if t.id == k then some t else h k)) where
  -- A holder of the new state is the new tunnel or an old one, which has another port.
  add_cases :
      (k : String) (u : Tunnel)
      → h' k ≡ some u
      → ((t.id ≡ k) × (u ≡ t)) ⊎ ((h k ≡ some u) × (u.remote_port ≢ t.remote_port))
  add_cases k u g = elim (beq-cases t.id k) [
    | inl s ↦ inl (s, ground (arith, w k, eq_iff t.id k))
    | inr (ne, s) ↦
        let old : h k ≡ some u = ground (arith, w k) in
        inr (old, λ r. cc (take.free, e.taken k u old, ap (is_allocated p) r))
  ]

  add_no_leak :
      (x : ℕ)
      → is_allocated q x ≡ true
      → (k : String) × (u : Tunnel) × (h' k ≡ some u) × (u.remote_port ≡ x)
  add_no_leak x a = elim (beq-cases t.remote_port x) [
    | inl s ↦ (t.id, t, rw (w t.id, beq_refl t.id), s)
    | inr (ne, s) ↦
        let (k, u, g, r) = e.no_leak x (ground (arith, take.effect x)) in
        (k, u, rw (w k, beq_ne t.id k (λ same. cc (ap h same, g, fresh))) g, r)
  ]

  add_distinct :
      (j k : String) (u u' : Tunnel)
      → h' j ≡ some u
      → h' k ≡ some u'
      → u.remote_port ≡ u'.remote_port
      → j ≡ k
  add_distinct j k u u' g g' r = pick (add_cases j u g) (add_cases k u' g')
    where
      pick :
          ((t.id ≡ j) × (u ≡ t)) ⊎ ((h j ≡ some u) × (u.remote_port ≢ t.remote_port))
          → ((t.id ≡ k) × (u' ≡ t)) ⊎ ((h k ≡ some u') × (u'.remote_port ≢ t.remote_port))
          → j ≡ k
      pick (inl (a, b)) (inl (c, d)) = cc
      pick (inl (a, b)) (inr (c, d)) = absurd (d (sym r ∙ ap (λ (v : Tunnel). v.remote_port) b))
      pick (inr (a, b)) (inl (c, d)) = absurd (b (r ∙ ap (λ (v : Tunnel). v.remote_port) d))
      pick (inr (a, b)) (inr (c, d)) = e.distinct j k u u' a c r

  pub Exclusive-add : Exclusive q h'
  Exclusive-add = record {
    valid = v;
    keyed = λ k u g. elim (add_cases k u g) [
      | inl (s, b) ↦ ap (λ (x : Tunnel). x.id) b ∙ s
      | inr (o, _) ↦ e.keyed k u o
    ];
    taken = λ k u g. elim (add_cases k u g) [
      | inl (s, b) ↦ ground (arith, take.effect t.remote_port, ap (λ (x : Tunnel). x.remote_port) b)
      | inr (o, _) ↦ ground (arith, take.effect u.remote_port, e.taken k u o)
    ];
    distinct = add_distinct;
    no_leak = add_no_leak;
  }

-- One tunnel less, and its port given back.
module _ (p : Pool) (h h' : Holders) (t : Tunnel) (e : Exclusive p h) (held : h t.id ≡ some t)
    (w : (k : String) → h' k ≡ (if t.id == k then none else h k)) where
  remove_cases : (k : String) (u : Tunnel) → h' k ≡ some u → (t.id ≢ k) × (h k ≡ some u)
  remove_cases k u g = elim (beq-cases t.id k) [
    | inl s ↦ absurd (ground (arith, w k, eq_iff t.id k))
    | inr (ne, s) ↦ (ne, ground (arith, w k))
  ]

  holder_port : (k : String) (u : Tunnel) → t.id ≡ k → h k ≡ some u → t.remote_port ≡ u.remote_port
  holder_port k u same g = let s : t ≡ u = cc in ap (λ (y : Tunnel). y.remote_port) s

  remove_no_leak :
      (x : ℕ)
      → is_allocated (release p t.remote_port) x ≡ true
      → (k : String) × (u : Tunnel) × (h' k ≡ some u) × (u.remote_port ≡ x)
  remove_no_leak x a =
      let (k, u, g, r) = e.no_leak x (ground (arith, is_allocated-release p t.remote_port x)) in
      let other : t.remote_port ≢ x = λ s. ground (arith, is_allocated-release p t.remote_port x) in
      let ne : t.id ≢ k = λ same. other (holder_port k u same g ∙ r) in
      (k, u, rw (w k, beq_ne t.id k ne) g, r)

  pub Exclusive-remove : Exclusive (release p t.remote_port) h'
  Exclusive-remove = record {
    valid = release-IsValid p t.remote_port e.valid;
    keyed = λ k u g. e.keyed k u (remove_cases k u g).1;
    taken = λ k u g.
        let (ne, o) = remove_cases k u g in
        ground (
          arith,
          is_allocated-release p t.remote_port u.remote_port,
          e.taken k u o,
          e.distinct t.id k t u held o,
        );
    distinct =
        λ j k u u' g g' r. e.distinct j k u u' (remove_cases j u g).1 (remove_cases k u' g').1 r;
    no_leak = remove_no_leak;
  }
