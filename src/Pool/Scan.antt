-- ===== src/Pool/Scan.antt =====
-- The sequential scan of Allocate finds the free port that is nearest after `next`, going round once.
use taildog.Prelude.{
  refl, ap, sym, ◌∙◌, ℕ, zero, suc, ◌+◌, ◌-◌, ◌≤◌, ◌<◌, ◌≡◌, ◌≢◌, ◌⊎◌, true, false, arith, nat_key,
  ◌==◌, Result, ok, err, if◌then◌else◌, Bool-cases, inl, inr, leb, beq-cases,
}
use taildog.Pool.{Pool, PoolError, no_free_ports, advance, is_allocated, take_port, scan}
use taildog.Pool.Invariant.{IsValid, advance-IsValid, is_allocated-advance, is_allocated-take_port}

-- How many steps of `advance` lead from `next` to the port `x`.
abbrev pub distance : Pool → ℕ → ℕ
distance p x = if leb p.next x then x - p.next else x - p.min + (p.max + 1 - p.next)

-- `q` is `p` with the free port `c` taken.
pub record Takes (p : Pool) (c : ℕ) (q : Pool) : Type 0 where
  pub min_kept : q.min ≡ p.min
  pub max_kept : q.max ≡ p.max
  pub low : p.min ≤ c
  pub high : c ≤ p.max
  pub free : is_allocated p c ≡ false
  pub effect : (x : ℕ) → is_allocated q x ≡ (if c == x then true else is_allocated p x)

-- `q` has the bounds and the allocated ports of `p`.
pub record Same (p q : Pool) : Type 0 where
  pub min_kept : q.min ≡ p.min
  pub max_kept : q.max ≡ p.max
  pub effect : (x : ℕ) → is_allocated q x ≡ is_allocated p x

-- Every port of the range that is nearer than `d` is taken.
abbrev pub TakenBefore : Pool → ℕ → Type 0
TakenBefore p d = (x : ℕ) → p.min ≤ x → x ≤ p.max → distance p x < d → is_allocated p x ≡ true

abbrev pub Scanned : ℕ → Pool → Result PoolError ℕ × Pool → Type 0
Scanned rounds p (r, q) =
    ((c : ℕ) × (r ≡ ok c) × Takes p c q × TakenBefore p (distance p c))
    ⊎ ((r ≡ err no_free_ports) × Same p q × TakenBefore p rounds)

distance-advance :
    (p : Pool) (x : ℕ)
    → IsValid p
    → p.min ≤ x
    → x ≤ p.max
    → x ≢ p.next
    → suc (distance (advance p) x) ≡ distance p x
unfolding advance
distance-advance p x v lo hi ne = ground (arith, v.low, v.high)

-- What is taken just after the first port is taken from it on, if the first port is taken too.
TakenBefore-advance :
    (p : Pool) (d : ℕ)
    → IsValid p
    → is_allocated p p.next ≡ true
    → TakenBefore (advance p) d
    → TakenBefore p (suc d)
TakenBefore-advance p d v t h x lo hi near = elim (beq-cases x p.next) [
  | inl e ↦ rw e t
  | inr (ne, _) ↦ later ne
]
  where
    later : x ≢ p.next → is_allocated p x ≡ true
    later ne =
        sym (is_allocated-advance p x)
        ∙ h x (unfold advance in lo) (unfold advance in hi)
            (omega (arith, distance-advance p x v lo hi ne))

Takes-advance : (p q : Pool) (c : ℕ) → Takes (advance p) c q → Takes p c q
unfolding advance
Takes-advance p q c t = record {
  min_kept = t.min_kept;
  max_kept = t.max_kept;
  low = t.low;
  high = t.high;
  free = sym (is_allocated-advance p c) ∙ t.free;
  effect = λ x. ground (arith, t.effect x, is_allocated-advance p x);
}

Same-advance : (p q : Pool) → Same (advance p) q → Same p q
unfolding advance
Same-advance p q s = record {
  min_kept = s.min_kept;
  max_kept = s.max_kept;
  effect = λ x. s.effect x ∙ is_allocated-advance p x;
}

Scanned-advance :
    (rounds : ℕ) (p : Pool) (r : Result PoolError ℕ × Pool)
    → IsValid p
    → is_allocated p p.next ≡ true
    → Scanned rounds (advance p) r
    → Scanned (suc rounds) p r
Scanned-advance rounds p (r, q) v t (inl (c, e, k, n)) =
    inl (c, e, t', rw (← step) (TakenBefore-advance p _ v t n))
  where
    t' : Takes p c q
    t' = Takes-advance p q c k

    step : suc (distance (advance p) c) ≡ distance p c
    step = distance-advance p c v t'.low t'.high (λ x. cc (t'.free, t, ap (is_allocated p) x))
Scanned-advance rounds p (r, q) v t (inr (e, k, n)) =
    inr (e, Same-advance p q k, TakenBefore-advance p rounds v t n)

pub Takes-take_port :
    (p : Pool) (c : ℕ)
    → p.min ≤ c
    → c ≤ p.max
    → is_allocated p c ≡ false
    → Takes p c (take_port p c)
unfolding take_port
Takes-take_port p c lo hi f = record {
  min_kept = refl;
  max_kept = refl;
  low = lo;
  high = hi;
  free = f;
  effect = is_allocated-take_port p c;
}

Takes-next :
    (p : Pool)
    → IsValid p
    → is_allocated p p.next ≡ false
    → Takes p p.next (take_port (advance p) p.next)
Takes-next p v f = Takes-advance p _ p.next (
    Takes-take_port (advance p) p.next (unfold advance in v.low) (unfold advance in v.high)
      (is_allocated-advance p p.next ∙ f))

pub scan-Scanned : (rounds : ℕ) (p : Pool) → IsValid p → Scanned rounds p (scan rounds p)
unfolding scan
scan-Scanned zero p v = inr (
  refl,
  record { min_kept = refl; max_kept = refl; effect = λ x. refl },
  λ x lo hi near. absurd (omega arith),
)
scan-Scanned (suc rounds) p v = elim (Bool-cases (is_allocated p p.next)) [
  | inl t ↦ rw t (
      Scanned-advance rounds p (scan rounds (advance p)) v t
        (scan-Scanned rounds (advance p) (advance-IsValid p v)))
  | inr f ↦ rw f (inl (p.next, refl, Takes-next p v f, λ x lo hi near. absurd (ground arith)))
]

-- Every port of the range is nearer than the scan's number of rounds.
pub distance-lt_size :
    (p : Pool) (x : ℕ) → IsValid p → p.min ≤ x → x ≤ p.max → distance p x < p.max + 1 - p.min
distance-lt_size p x v lo hi = ground (arith, v.low, v.high)
