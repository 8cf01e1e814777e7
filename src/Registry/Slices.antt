-- ===== src/Registry/Slices.antt =====
-- A client's slice of tunnels when one is appended or filtered out.
use taildog.Prelude.{
  refl, ap, ◌∙◌, ◌≡◌, ◌⊎◌, inl, inr, Bool, true, List, [], ◌∷◌, ◌++◌, In, keep, Bool-cases,
}
use taildog.Registry.{Tunnel}
use taildog.Registry.System.{HasDistinctIds}

pub In-append : (u t : Tunnel) (ts : List Tunnel) → In u (ts ++ t ∷ []) → In u ts ⊎ (u ≡ t)
In-append u t [] (inl e) = inr e
In-append u t [] (inr i) = elim i [ ]
In-append u t (x ∷ ts) (inl e) = inl (inl e)
In-append u t (x ∷ ts) (inr i) = elim (In-append u t ts i) [ inl j ↦ inl (inr j) | inr e ↦ inr e ]

pub HasDistinctIds-append :
    (t : Tunnel) (ts : List Tunnel)
    → HasDistinctIds ts
    → ((u : Tunnel) → In u ts → (u.id ≡ t.id) → ⊥)
    → HasDistinctIds (ts ++ t ∷ [])
HasDistinctIds-append t [] d ne = (λ u i e. elim i [ ], tt)
HasDistinctIds-append t (x ∷ ts) d ne = (
  λ u i e. elim (In-append u t ts i) [
    | inl j ↦ d.0 u j e
    | inr s ↦ ne x (inl refl) (e ∙ ap (λ (y : Tunnel). y.id) s)
  ],
  HasDistinctIds-append t ts d.1 (λ u i. ne u (inr i)),
)

pub In-keep :
    (f : Tunnel → Bool) (u : Tunnel) (ts : List Tunnel) → In u (keep f ts) → In u ts × (f u ≡ true)
In-keep f u [] i = elim i [ ]
In-keep f u (x ∷ ts) i = elim (Bool-cases (f x)) [
  | inl t ↦ kept t (In-keep f u ts) (rw t at i)
  | inr n ↦ (inr (In-keep f u ts (rw n at i)).0, (In-keep f u ts (rw n at i)).1)
]
  where
    kept :
        f x ≡ true
        → (In u (keep f ts) → In u ts × (f u ≡ true))
        → (u ≡ x) ⊎ In u (keep f ts)
        → ((u ≡ x) ⊎ In u ts) × (f u ≡ true)
    kept t ih (inl e) = (inl e, ap f e ∙ t)
    kept t ih (inr j) = (inr (ih j).0, (ih j).1)

pub HasDistinctIds-keep :
    (f : Tunnel → Bool) (ts : List Tunnel) → HasDistinctIds ts → HasDistinctIds (keep f ts)
HasDistinctIds-keep f [] d = tt
HasDistinctIds-keep f (x ∷ ts) d = elim (Bool-cases (f x)) [
  | inl t ↦ rw t (λ u i. d.0 u (In-keep f u ts i).0, HasDistinctIds-keep f ts d.1)
  | inr n ↦ rw n (HasDistinctIds-keep f ts d.1)
]
