-- ===== src/Pool.antt =====
-- relay/internal/tunnel/pool.go: the ports that the relay hands out. The bounds are natural numbers
-- (the relay uses 10000 and 60000); a request may be any `int`.
pub mod Invariant
pub mod Scan
pub mod Contract
pub mod History
mod Samples
use taildog.Prelude.{
  [], ℕ, zero, suc, ℤ, pos, negsuc, ◌+◌, ◌-◌, Bool, true, false, ◌&&◌, not, ltb, leb, nat_key, ◌==◌,
  Result, ok, err, if◌then◌else◌,
}
use taildog.Dict.{Dict, has, put, delete, get}

pub record Pool : Type 0 where
  pub min : ℕ
  pub max : ℕ
  pub allocated : Dict ℕ (Unit {0})
  pub next : ℕ

pub data PoolError : Type 0 where
  in_use : ℕ → PoolError
  no_free_ports : PoolError

unfoldable pub new_pool : ℕ → ℕ → Pool
new_pool lo hi = record { min = lo; max = hi; allocated = []; next = lo }

unfoldable pub in_range : Pool → ℤ → Bool
in_range p (pos n) = leb p.min n && leb n p.max
in_range p (negsuc n) = false

unfoldable pub advance : Pool → Pool
advance p = let n = p.next + 1 in record p { next = if ltb p.max n then p.min else n }

-- `_, taken := p.allocated[port]`, and the same test of IsAllocated under the lock.
unfoldable pub is_allocated : Pool → ℕ → Bool
is_allocated p port = has port p.allocated

pub take_port : Pool → ℕ → Pool
take_port p port = record p { allocated = put port tt p.allocated }

-- The scan from `next`, with the rounds that are left.
unfoldable pub scan : ℕ → Pool → Result PoolError ℕ × Pool
unfolding take_port
scan zero p = (err no_free_ports, p)
scan (suc rounds) p =
    let rest = scan rounds (advance p) in
    if is_allocated p p.next then rest else (ok p.next, take_port (advance p) p.next)

unfoldable pub auto_assign : Pool → Result PoolError ℕ × Pool
auto_assign p = scan (p.max + 1 - p.min) p

unfoldable pub allocate_at : Pool → ℕ → Result PoolError ℕ × Pool
unfolding take_port
allocate_at p port =
    if is_allocated p port then (err (in_use port), p) else (ok port, take_port p port)

-- A request of 0 or out of range is served from the pool.
unfoldable pub allocate : Pool → ℤ → Result PoolError ℕ × Pool
allocate p (pos zero) = auto_assign p
allocate p (pos (suc n)) = if in_range p (pos (suc n)) then allocate_at p (suc n) else auto_assign p
allocate p (negsuc n) = auto_assign p

unfoldable pub release : Pool → ℕ → Pool
release p port = record p { allocated = delete port p.allocated }
