-- ===== src/Pool/Invariant.antt =====
-- What holds of a pool between two calls: the scan position and every allocated port are in range.
use taildog.Prelude.{
  refl, ℕ, zero, suc, ℤ, pos, negsuc, ◌+◌, ◌-◌, ◌≤◌, ◌≡◌, true, false, arith, nat_key, ◌==◌,
  if◌then◌else◌, Bool-cases, inl, inr,
}
use taildog.Dict.{get, get-put, get-delete}
use taildog.Pool.{
  Pool, new_pool, in_range, advance, is_allocated, take_port, scan, auto_assign, allocate_at,
  allocate, release,
}

pub record IsValid (p : Pool) : Type 0 where
  pub low : p.min ≤ p.next
  pub high : p.next ≤ p.max
  pub within : (x : ℕ) → is_allocated p x ≡ true → (p.min ≤ x) × (x ≤ p.max)

pub new_pool-IsValid : (lo hi : ℕ) → lo ≤ hi → IsValid (new_pool lo hi)
unfolding new_pool is_allocated get
new_pool-IsValid lo hi h = record { low = omega arith; high = h; within = λ x e. cc }

pub is_allocated-advance : (p : Pool) (x : ℕ) → is_allocated (advance p) x ≡ is_allocated p x
unfolding is_allocated advance
is_allocated-advance p x = refl

pub advance-IsValid : (p : Pool) → IsValid p → IsValid (advance p)
unfolding advance is_allocated
advance-IsValid p v = record { low = ground arith; high = ground arith; within = v.within }

pub is_allocated-take_port :
    (p : Pool) (c x : ℕ)
    → is_allocated (take_port p c) x ≡ (if c == x then true else is_allocated p x)
unfolding is_allocated take_port
is_allocated-take_port p c x = rw get-put (ground arith)

pub is_allocated-release :
    (p : Pool) (c x : ℕ)
    → is_allocated (release p c) x ≡ (if c == x then false else is_allocated p x)
unfolding is_allocated release
is_allocated-release p c x = rw get-delete (ground arith)

pub take_port-IsValid :
    (p : Pool) (c : ℕ) → IsValid p → p.min ≤ c → c ≤ p.max → IsValid (take_port p c)
unfolding take_port
take_port-IsValid p c v lo hi = record {
  low = v.low;
  high = v.high;
  within = λ x e. ground (arith, is_allocated-take_port p c x, v.within x);
}

pub release-IsValid : (p : Pool) (c : ℕ) → IsValid p → IsValid (release p c)
unfolding release
release-IsValid p c v = record {
  low = v.low;
  high = v.high;
  within = λ x e. ground (arith, is_allocated-release p c x, v.within x);
}

scan-IsValid : (rounds : ℕ) (p : Pool) → IsValid p → IsValid (scan rounds p).1
unfolding scan
scan-IsValid zero p v = v
scan-IsValid (suc rounds) p v = elim (Bool-cases (is_allocated p p.next)) [
  | inl t ↦ rw t (scan-IsValid rounds (advance p) (advance-IsValid p v))
  | inr f ↦
      rw f
        (unfold advance in take_port-IsValid (advance p) p.next (advance-IsValid p v) v.low v.high)
]

-- Every call of Allocate, on every branch, keeps the pool valid.
pub allocate-IsValid : (p : Pool) (r : ℤ) → IsValid p → IsValid (allocate p r).1
unfolding allocate auto_assign allocate_at in_range
allocate-IsValid p (pos zero) v = scan-IsValid _ p v
allocate-IsValid p (negsuc n) v = scan-IsValid _ p v
allocate-IsValid p (pos (suc n)) v = ground (
  arith,
  scan-IsValid (p.max + 1 - p.min) p v,
  λ (l : p.min ≤ suc n) (h : suc n ≤ p.max). take_port-IsValid p (suc n) v l h,
)
