-- ===== src/Prelude/Keep.antt =====
-- What one passing item of a list is to the others.
use mathlib.Core.Path.{◌≡◌, refl, sym, ap}
use mathlib.Core.Logic.{inl, inr}
use mathlib.Core.Bool.{Bool, true, not}
use mathlib.Core.List.{List, [], ◌∷◌, ◌++◌}
use native.Mathlib.Omega.{arith}
use taildog.Prelude.Tests.{Bool-cases}
use taildog.Prelude.Lists.{keep}

module _ {A : Type 0} (f : A → Bool) where
  pub keep-none : (xs : List A) → keep f xs ≡ [] → keep (λ x. not (f x)) xs ≡ xs
  keep-none [] h = refl
  keep-none (x ∷ xs) h = elim (Bool-cases (f x)) [
    | inl y ↦ absurd (ground (arith, y))
    | inr n ↦ rw n (ap (λ r. x ∷ r) (keep-none xs (ground (arith, n))))
  ]

  -- One item passes the test: it is the one between the others.
  pub keep-one :
      (t : A) (xs : List A)
      → keep f xs ≡ t ∷ []
      → (us vs : List A) × (xs ≡ us ++ t ∷ vs)
        × (keep (λ x. not (f x)) xs ≡ us ++ vs)
        × (f t ≡ true)
        × (keep f (us ++ vs) ≡ [])
  keep-one t [] h = cc
  keep-one t (x ∷ xs) h = elim (Bool-cases (f x)) [
    | inl y ↦
        let h' : x ∷ keep f xs ≡ t ∷ [] = ground (arith, y, h) in
        let same : x ≡ t = cc in
        let rest : keep f xs ≡ [] = cc in
        let left = keep-none xs rest in ([], xs, cc, rw y left, rw (sym same) y, rest)
    | inr n ↦
        let h' : keep f xs ≡ t ∷ [] = ground (arith, n, h) in
        let (us, vs, whole, left, hit, none_left) = keep-one t xs h' in
        (x ∷ us, vs, ap (λ r. x ∷ r) whole, rw n (ap (λ r. x ∷ r) left), hit, rw n none_left)
  ]

pub keep-fresh :
    {A : Type 0} (f : A → Bool) (xs : List A) (t : A)
    → keep f xs ≡ []
    → f t ≡ true
    → (keep f (xs ++ t ∷ []) ≡ t ∷ []) × (keep (λ x. not (f x)) (xs ++ t ∷ []) ≡ xs)
keep-fresh f [] t h y = (rw y refl, rw y refl)
keep-fresh f (x ∷ xs) t h y = elim (Bool-cases (f x)) [
  | inl z ↦ absurd (ground (arith, z, h))
  | inr n ↦
      let (one, others) = keep-fresh f xs t (ground (arith, n, h)) y in
      (rw n one, rw n (ap (λ r. x ∷ r) others))
]
