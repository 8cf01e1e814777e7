-- ===== src/Pool/History.antt =====
-- Any sequence of calls against a ledger of the ports that are handed out and not yet released.
use taildog.Prelude.{
  refl, sym, ◌∙◌, ℕ, ℤ, ◌≤◌, ◌≡◌, Bool, true, false, arith, nat_key, ◌==◌, Result, ok, err,
  if◌then◌else◌, List, [], ◌∷◌,
}
use taildog.Dict.{get}
use taildog.Pool.{Pool, PoolError, new_pool, is_allocated, allocate, release}
use taildog.Pool.Invariant.{
  IsValid, allocate-IsValid, release-IsValid, is_allocated-release, new_pool-IsValid,
}
use taildog.Pool.Scan.{Takes}
use taildog.Pool.Contract.{allocate-Takes, allocate_err-Same}

pub data Call : Type 0 where
  allocates : ℤ → Call
  releases : ℕ → Call

abbrev pub holds : ℕ → List ℕ → Bool
holds x [] = false
holds x (y ∷ ys) = if y == x then true else holds x ys

abbrev pub without : ℕ → List ℕ → List ℕ
without x [] = []
without x (y ∷ ys) = let rest = without x ys in if y == x then rest else y ∷ rest

abbrev pub IsDistinct : List ℕ → Type 0
IsDistinct [] = Unit {0}
IsDistinct (x ∷ xs) = (holds x xs ≡ false) × IsDistinct xs

abbrev enter : Result PoolError ℕ → List ℕ → List ℕ
enter (ok c) out = c ∷ out
enter (err x) out = out

pub step : Pool × List ℕ → Call → Pool × List ℕ
step (p, out) (allocates r) = ((allocate p r).1, enter (allocate p r).0 out)
step (p, out) (releases c) = (release p c, without c out)

pub run : Pool × List ℕ → List Call → Pool × List ℕ
run s [] = s
run s (c ∷ cs) = run (step s c) cs

-- The pool and the ledger agree, and no port is out twice.
pub record Agrees (p : Pool) (out : List ℕ) : Type 0 where
  pub valid : IsValid p
  pub distinct : IsDistinct out
  pub same : (x : ℕ) → is_allocated p x ≡ holds x out

holds-without :
    (c x : ℕ) (xs : List ℕ) → holds x (without c xs) ≡ (if c == x then false else holds x xs)
holds-without c x [] = ground arith
holds-without c x (y ∷ ys) = ground (arith, holds-without c x ys)

IsDistinct-without : (c : ℕ) (xs : List ℕ) → IsDistinct xs → IsDistinct (without c xs)
IsDistinct-without c [] d = tt
IsDistinct-without c (x ∷ xs) d = ground (arith, holds-without c x xs, IsDistinct-without c xs d.1)

allocate-Agrees :
    (p : Pool) (out : List ℕ) (r : ℤ) (res : Result PoolError ℕ)
    → (allocate p r).0 ≡ res
    → Agrees p out
    → Agrees (allocate p r).1 (enter res out)
allocate-Agrees p out r (ok c) e a = record {
  valid = allocate-IsValid p r a.valid;
  distinct = (sym (a.same c) ∙ t.free, a.distinct);
  same = λ x. ground (arith, t.effect x, a.same x);
}
  where
    t : Takes p c (allocate p r).1
    t = allocate-Takes p r c a.valid e
allocate-Agrees p out r (err y) e a = record {
  valid = allocate-IsValid p r a.valid;
  distinct = a.distinct;
  same = λ x. (allocate_err-Same p r y a.valid e).effect x ∙ a.same x;
}

step-Agrees :
    (p : Pool) (out : List ℕ) (c : Call)
    → Agrees p out
    → Agrees (step (p, out) c).0 (step (p, out) c).1
unfolding step
step-Agrees p out (allocates r) a = allocate-Agrees p out r (allocate p r).0 refl a
step-Agrees p out (releases c) a = record {
  valid = release-IsValid p c a.valid;
  distinct = IsDistinct-without c out a.distinct;
  same = λ x. ground (arith, is_allocated-release p c x, a.same x, holds-without c x out);
}

run-Agrees :
    (p : Pool) (out : List ℕ) (cs : List Call)
    → Agrees p out
    → Agrees (run (p, out) cs).0 (run (p, out) cs).1
unfolding run
run-Agrees p out [] a = a
run-Agrees p out (c ∷ cs) a =
    run-Agrees (step (p, out) c).0 (step (p, out) c).1 cs (step-Agrees p out c a)

-- From a new pool, after any sequence of Allocate and Release, exactly the ports that were handed
-- out and not released since are taken, none of them was handed out twice, and all are in range.
pub run-new_pool-Agrees :
    (lo hi : ℕ) (cs : List Call)
    → lo ≤ hi
    → Agrees (run (new_pool lo hi, []) cs).0 (run (new_pool lo hi, []) cs).1
run-new_pool-Agrees lo hi cs h = run-Agrees (new_pool lo hi) [] cs (record {
  valid = new_pool-IsValid lo hi h;
  distinct = tt;
  same = λ x. unfold new_pool is_allocated get in refl;
})
