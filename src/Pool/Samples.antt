-- ===== src/Pool/Samples.antt =====
-- The pool of the tests in relay/internal/tunnel/pool_test.go, and each theorem at an input.
use taildog.Prelude.{refl, pos, ◌≡◌, arith, ok, err, [], ◌∷◌}
use taildog.Dict.{get}
use taildog.Pool.{
  Pool, auto_assign, scan, advance, allocate_at, new_pool, is_allocated, allocate, in_range, in_use,
}
use taildog.Pool.Invariant.{IsValid}
use taildog.Pool.Contract.{Outcome, allocate-Outcome}
use taildog.Pool.History.{run, run-new_pool-Agrees, Agrees, allocates, releases}

abbrev ten_ports : Pool
ten_ports = record {
  min = 10000;
  max = 10010;
  allocated = (10000, tt) ∷ (10002, tt) ∷ [];
  next = 10002;
}

ten_ports-IsValid : IsValid ten_ports
unfolding is_allocated get
ten_ports-IsValid = record { low = omega arith; high = omega arith; within = λ x e. ground arith }

next_free : (allocate ten_ports (pos 0)).0 ≡ ok 10003
unfolding allocate auto_assign scan is_allocated get advance
next_free = refl

out_of_range_auto_assigns : (allocate ten_ports (pos 3000)).0 ≡ ok 10003
unfolding allocate in_range auto_assign scan is_allocated get advance
out_of_range_auto_assigns = refl

conflict_is_error : (allocate ten_ports (pos 10002)).0 ≡ err (in_use 10002)
unfolding allocate in_range allocate_at is_allocated get
conflict_is_error = refl

allocate-Outcome_example :
    Outcome ten_ports (pos 3000) (allocate ten_ports (pos 3000)).0 (allocate ten_ports (pos 3000)).1
allocate-Outcome_example = allocate-Outcome ten_ports (pos 3000) ten_ports-IsValid

run-new_pool-Agrees_example :
    Agrees
      (run
        (new_pool 10000 10001, [])
        (allocates (pos 0) ∷ allocates (pos 10000) ∷ releases 10000 ∷ [])).0
      (run
        (new_pool 10000 10001, [])
        (allocates (pos 0) ∷ allocates (pos 10000) ∷ releases 10000 ∷ [])).1
run-new_pool-Agrees_example =
    run-new_pool-Agrees 10000 10001
      (allocates (pos 0) ∷ allocates (pos 10000) ∷ releases 10000 ∷ []) (omega arith)
