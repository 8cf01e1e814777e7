-- ===== src/Pool/Contract.antt =====
-- What Allocate promises its callers, on every branch, and what Release gives back.
use taildog.Prelude.{
  refl, ℕ, zero, suc, ℤ, pos, negsuc, ◌+◌, ◌-◌, ◌≤◌, ◌<◌, ◌≡◌, ◌⊎◌, true, false, arith, nat_key,
  Result, ok, err, Bool-cases, inl, inr,
}
use taildog.Pool.{
  Pool, PoolError, in_use, no_free_ports, in_range, is_allocated, auto_assign, allocate_at,
  allocate,
}
use taildog.Pool.Invariant.{IsValid}
use taildog.Pool.Scan.{
  distance, Takes, Same, TakenBefore, scan-Scanned, distance-lt_size, Takes-take_port,
}

-- The request that Allocate answers from the pool: 0, or a port out of range.
abbrev pub IsAuto : Pool → ℤ → Type 0
IsAuto p r = (r ≡ pos 0) ⊎ (in_range p r ≡ false)

abbrev pub AllTaken : Pool → Type 0
AllTaken p = (x : ℕ) → p.min ≤ x → x ≤ p.max → is_allocated p x ≡ true

-- The four outcomes of a call.
pub data Outcome (p : Pool) (r : ℤ) (res : Result PoolError ℕ) (q : Pool) : Type 0 where
  as_requested : (c : ℕ) → r ≡ pos c → 0 < c → res ≡ ok c → Takes p c q → Outcome p r res q
  conflict :
      (c : ℕ)
      → r ≡ pos c
      → 0 < c
      → is_allocated p c ≡ true
      → res ≡ err (in_use c)
      → q ≡ p
      → Outcome p r res q
  from_pool :
      (c : ℕ)
      → IsAuto p r
      → res ≡ ok c
      → Takes p c q
      → TakenBefore p (distance p c)
      → Outcome p r res q
  exhausted : IsAuto p r → res ≡ err no_free_ports → Same p q → AllTaken p → Outcome p r res q

auto_assign-Outcome :
    (p : Pool) (r : ℤ) → IsValid p → IsAuto p r → Outcome p r (auto_assign p).0 (auto_assign p).1
unfolding auto_assign
auto_assign-Outcome p r v a = elim (scan-Scanned (p.max + 1 - p.min) p v) [
  | inl (c, e, t, n) ↦ from_pool c a e t n
  | inr (e, s, n) ↦ exhausted a e s (λ x lo hi. n x lo hi (distance-lt_size p x v lo hi))
]

allocate_at-Outcome :
    (p : Pool) (c : ℕ)
    → 0 < c
    → in_range p (pos c) ≡ true
    → Outcome p (pos c) (allocate_at p c).0 (allocate_at p c).1
unfolding allocate_at in_range
allocate_at-Outcome p c z h = elim (Bool-cases (is_allocated p c)) [
  | inl t ↦ rw t (conflict c refl z t refl refl)
  | inr f ↦ rw f (as_requested c refl z refl (Takes-take_port p c (ground arith) (ground arith) f))
]

-- A valid pool answers a request in range with that port or, if it is taken, with an error that
-- leaves the pool alone; it answers any other request with the free port that is nearest after the
-- scan position, or with an error exactly when the whole range is taken.
pub allocate-Outcome :
    (p : Pool) (r : ℤ) → IsValid p → Outcome p r (allocate p r).0 (allocate p r).1
unfolding allocate
allocate-Outcome p (pos zero) v = auto_assign-Outcome p (pos zero) v (inl refl)
allocate-Outcome p (negsuc n) v = auto_assign-Outcome p (negsuc n) v (inr (unfold in_range in refl))
allocate-Outcome p (pos (suc n)) v = elim (Bool-cases (in_range p (pos (suc n)))) [
  | inl t ↦ rw t (allocate_at-Outcome p (suc n) (omega arith) t)
  | inr f ↦ rw f (auto_assign-Outcome p (pos (suc n)) v (inr f))
]

pub IsAuto-of : (p : Pool) (c : ℕ) → 0 < c → IsAuto p (pos c) → in_range p (pos c) ≡ false
IsAuto-of p c z (inl e) = absurd (ground arith)
IsAuto-of p c z (inr f) = f

-- Whatever Allocate hands out was free before and is taken after, and no other port changes.
pub allocate-Takes :
    (p : Pool) (r : ℤ) (c : ℕ) → IsValid p → (allocate p r).0 ≡ ok c → Takes p c (allocate p r).1
allocate-Takes p r c v e = elim (allocate-Outcome p r v) [
  | as_requested d _ _ o t ↦ from d o t
  | conflict d _ _ _ o _ ↦ cc
  | from_pool d _ o t _ ↦ from d o t
  | exhausted _ o _ _ ↦ cc
]
  where
    from :
        (d : ℕ) → (allocate p r).0 ≡ ok d → Takes p d (allocate p r).1 → Takes p c (allocate p r).1
    from d o t = let s : d ≡ c = ground arith in rw s at t

-- An error leaves every port as it was.
pub allocate_err-Same :
    (p : Pool) (r : ℤ) (x : PoolError)
    → IsValid p
    → (allocate p r).0 ≡ err x
    → Same p (allocate p r).1
allocate_err-Same p r x v e = elim (allocate-Outcome p r v) [
  | as_requested d _ _ o _ ↦ cc
  | conflict d _ _ _ _ q ↦ rw q (record { min_kept = refl; max_kept = refl; effect = λ y. refl })
  | from_pool d _ o _ _ ↦ cc
  | exhausted _ _ s _ ↦ s
]

-- As long as one port of the range of a valid pool is free, a request for 0 is served.
pub allocate_zero_served :
    (p : Pool) (x : ℕ)
    → IsValid p
    → p.min ≤ x
    → x ≤ p.max
    → is_allocated p x ≡ false
    → (c : ℕ) × ((allocate p (pos 0)).0 ≡ ok c)
allocate_zero_served p x v lo hi f = elim (allocate-Outcome p (pos 0) v) [
  | as_requested d _ _ o _ ↦ (d, o)
  | conflict d r z _ _ _ ↦ absurd (ground arith)
  | from_pool d _ o _ _ ↦ (d, o)
  | exhausted _ _ _ full ↦ cc (full x lo hi, f)
]
