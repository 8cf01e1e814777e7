-- ===== src/Pipe/Connections.antt =====
-- The connections from outside that the relay's sessions hold, and what is written to them.
use taildog.Prelude.{
  refl, sym, ap, ◌∙◌, ℕ, String, ◌&&◌, nat_key, string_key, ◌==◌, beq_refl, beq-cases, ◌≡◌, inl,
  inr, append-nil, Option, none, some, List, [], ◌∷◌, ◌++◌, if◌then◌else◌, arith, Bool-cases,
  Option-cases,
}
use taildog.Dict.{get, put, delete, get-put, get-delete}
use taildog.Sessions.{ClientSession, ExtConn, Outside, write_to_external}
use taildog.Control.{Relay, at}

-- The connection that the session at `q` has under an identifier.
unfoldable pub conn_at : ℕ → String → Relay → Option ExtConn
conn_at q c s = elim (get q s.heap) [ none ↦ none | some x ↦ get c x.conns ]

pub conn_at-same_heap :
    (q : ℕ) (c : String) (s s' : Relay) → s'.heap ≡ s.heap → conn_at q c s' ≡ conn_at q c s
unfolding conn_at
conn_at-same_heap q c s s' e = rw e refl

-- A session is replaced by one whose connections differ under one identifier at most.
pub conn_at-put :
    (q : ℕ) (y y' : ClientSession) (s s' : Relay)
    → get q s.heap ≡ some y
    → s'.heap ≡ put q y' s.heap
    → (r : ℕ) (c : String) → conn_at r c s' ≡ (if q == r then get c y'.conns else conn_at r c s)
unfolding conn_at
conn_at-put q y y' s s' e w r c = elim (Bool-cases (q == r)) [
  | inl same ↦ rw (conn_at, w, get-put q r y' s.heap, same) refl
  | inr f ↦ rw (conn_at, w, get-put q r y' s.heap, f) refl
]

pub conn_at-known :
    (q r : ℕ) (c : String) (y : ClientSession) (s : Relay)
    → get q s.heap ≡ some y
    → q ≡ r
    → conn_at r c s ≡ get c y.conns
unfolding conn_at
conn_at-known q r c y s e p = ap (λ z. conn_at z c s) (sym p) ∙ rw (conn_at, e) refl

conn_at-absent :
    (q r : ℕ) (c : String) (s : Relay) → get q s.heap ≡ none → q ≡ r → conn_at r c s ≡ none
unfolding conn_at
conn_at-absent q r c s e p = ap (λ z. conn_at z c s) (sym p) ∙ rw (conn_at, e) refl

module _ (q : ℕ) (f : ClientSession → Outside → ClientSession × Outside) (s : Relay) where
  pub conn_at-keeps :
      ((y : ClientSession) (o : Outside) → (f y o).0.conns ≡ y.conns)
      → (r : ℕ) (c : String) → conn_at r c (at q f s) ≡ conn_at r c s
  conn_at-keeps k r c = elim (Option-cases (get q s.heap)) [
    | inl e ↦ rw (at, e) refl
    | inr (y, e) ↦
        let changed = conn_at-put q y (f y s.outside).0 s (at q f s) e (rw (at, e) refl) r c in
        changed ∙ elim (beq-cases q r) [
          | inl p ↦
              rw (p, beq_refl r) (ap (get c) (k y s.outside) ∙ sym (conn_at-known q r c y s e p))
          | inr (apart, g) ↦ rw g refl
        ]
  ]

  pub conn_at-closes :
      (k : String)
      → ((y : ClientSession) (o : Outside) → (f y o).0.conns ≡ delete k y.conns)
      → (r : ℕ) (c : String)
      → conn_at r c (at q f s) ≡ (if q == r && k == c then none else conn_at r c s)
  conn_at-closes k d r c = elim (Option-cases (get q s.heap)) [
    | inl e ↦
        rw (at, e)
          (elim (beq-cases q r) [
            | inl p ↦ let n = conn_at-absent q r c s e p in ground (arith, n)
            | inr (apart, g) ↦ rw g refl
          ])
    | inr (y, e) ↦
        let changed = conn_at-put q y (f y s.outside).0 s (at q f s) e (rw (at, e) refl) r c in
        changed ∙ elim (beq-cases q r) [
          | inl p ↦
              rw (p, beq_refl r)
                (ap (get c) (d y s.outside)
                  ∙ get-delete k c y.conns
                  ∙ ap (λ z. if k == c then none else z) (sym (conn_at-known q r c y s e p)))
          | inr (apart, g) ↦ rw g refl
        ]
  ]

  pub written-keeps :
      ((y : ClientSession) (o : Outside) → (f y o).1.written ≡ o.written)
      → (at q f s).outside.written ≡ s.outside.written
  written-keeps k = elim (Option-cases (get q s.heap)) [
    | inl e ↦ rw (at, e) refl
    | inr (y, e) ↦ rw (at, e) (k y s.outside)
  ]

pub written-data :
    (q : ℕ) (c : String) (bytes : List ℕ) (s : Relay)
    → (at q (λ y o. (y, write_to_external c bytes y o)) s).outside.written
      ≡ s.outside.written ++ elim (conn_at q c s) [ none ↦ [] | some e ↦ (e, bytes) ∷ [] ]
unfolding write_to_external
written-data q c bytes s = elim (Option-cases (get q s.heap)) [
  | inl e ↦ rw (at, e, conn_at-absent q q c s e refl) (sym (append-nil _))
  | inr (y, e) ↦ elim (Option-cases (get c y.conns)) [
    | inl n ↦ rw (at, e, conn_at-known q q c y s e refl, write_to_external, n) (sym (append-nil _))
    | inr (x, n) ↦ rw (at, e, conn_at-known q q c y s e refl, write_to_external, n) refl
  ]
]
