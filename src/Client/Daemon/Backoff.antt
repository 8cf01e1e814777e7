-- ===== src/Client/Daemon/Backoff.antt =====
-- connectWithBackoff of client/internal/daemon/daemon.go: how long the daemon waits between two
-- connections, and with which configuration it connects. Times are in seconds; math.Pow and math.Min
-- are exact here, since a power of two beyond 60 does not count.
use taildog.Prelude.{
  refl, ap, ℕ, suc, ◌+◌, ◌^◌, ◌≤◌, min, ◌≡◌, List, [], ◌∷◌, ◌++◌, Result, ok, err, arith, length,
}
use native.Mathlib.Nat.{min-le_left, min-eq_left, min-eq_right, le-min, pow-le-pow_right}
use taildog.Client.Config.{Config, ConfigError}

pub record Reconnector : Type 0 where
  pub cfg : Config
  pub attempt : ℕ
  pub slept : List ℕ

abbrev pub max_backoff : ℕ
max_backoff = 60

unfoldable pub backoff : ℕ → ℕ
backoff attempt = min max_backoff (2 ^ attempt)

unfoldable pub reloaded : Result ConfigError Config → Config → Config
reloaded (ok c) cfg = c
reloaded (err e) cfg = cfg

-- One round of the loop after Connect returned, with what Load answers.
unfoldable pub round : Result ConfigError Config → Reconnector → Reconnector
unfolding backoff reloaded
round loaded s = record {
  cfg = reloaded loaded s.cfg;
  attempt = suc s.attempt;
  slept = s.slept ++ backoff (suc s.attempt) ∷ [];
}

unfoldable pub rounds : List (Result ConfigError Config) → Reconnector → Reconnector
unfolding round
rounds [] s = s
rounds (l ∷ ls) s = rounds ls (round l s)

unfoldable pub start_at : Config → Reconnector
start_at c = record { cfg = c; attempt = 0; slept = [] }

-- The last configuration that could be loaded.
pub last_loaded : List (Result ConfigError Config) → Config → Config
last_loaded [] c = c
last_loaded (ok l ∷ ls) c = last_loaded ls l
last_loaded (err e ∷ ls) c = last_loaded ls c

reloaded-last_loaded :
    (ls : List (Result ConfigError Config)) (l : Result ConfigError Config) (s : Reconnector)
    → reloaded l (rounds ls s).cfg ≡ last_loaded (ls ++ l ∷ []) s.cfg
unfolding rounds round reloaded last_loaded
reloaded-last_loaded [] (ok c) s = refl
reloaded-last_loaded [] (err e) s = refl
reloaded-last_loaded (ok c ∷ ls) l s = reloaded-last_loaded ls l (round (ok c) s)
reloaded-last_loaded (err e ∷ ls) l s = reloaded-last_loaded ls l (round (err e) s)

rounds-attempt :
    (ls : List (Result ConfigError Config)) (s : Reconnector)
    → (rounds ls s).attempt ≡ s.attempt + length ls
unfolding rounds round
rounds-attempt [] s = omega arith
rounds-attempt (l ∷ ls) s = omega (arith, rounds-attempt ls (round l s))

large : (a : ℕ) → 5 ≤ a → 60 ≤ 2 ^ suc a
large a far =
    let p : 2 ^ 6 ≤ 2 ^ suc a =
      pow-le-pow_right {n = 2} (omega arith) {i = 6} {j = suc a} (omega (arith, far)) in
    omega (arith, p)

small : (a : ℕ) → a ≤ 4 → 2 ^ suc a ≤ 60
small a near =
    let p : 2 ^ suc a ≤ 2 ^ 5 =
      pow-le-pow_right {n = 2} (omega arith) {i = suc a} {j = 5} (omega (arith, near)) in
    omega (arith, p)

backoff_bounds :
    (a : ℕ)
    → (2 ≤ backoff (suc a))
      × (backoff (suc a) ≤ 60)
      × (a ≤ 4 → backoff (suc a) ≡ 2 ^ suc a)
      × (5 ≤ a → backoff (suc a) ≡ 60)
unfolding backoff
backoff_bounds a = (
  le-min {k = 2} {a = 60} {b = 2 ^ suc a} (omega arith)
      (pow-le-pow_right {n = 2} (omega arith) {i = 1} {j = suc a} (omega arith)),
  min-le_left 60 (2 ^ suc a),
  (λ near. min-eq_right (small a near)),
  (λ far. min-eq_left (large a far)),
)

-- After any number of lost connections the next wait is two seconds doubled once for each of them,
-- while they are four at most, and sixty seconds from the fifth on, so it is between two and sixty;
-- the next connection uses the configuration that was loaded last.
pub round-wait :
    (ls : List (Result ConfigError Config)) (l : Result ConfigError Config) (c : Config)
    → let s = rounds ls (start_at c) in
      (w : ℕ) × ((round l s).slept ≡ s.slept ++ w ∷ [])
      × (2 ≤ w)
      × (w ≤ 60)
      × (length ls ≤ 4 → w ≡ 2 ^ suc (length ls))
      × (5 ≤ length ls → w ≡ 60)
      × ((round l s).cfg ≡ last_loaded (ls ++ l ∷ []) c)
unfolding round start_at
round-wait ls l c =
    let s = rounds ls (start_at c) in
    let e : s.attempt ≡ length ls = omega (arith, rounds-attempt ls (start_at c)) in
    let (low, high, near, far) = backoff_bounds (length ls) in
    (
      backoff (suc (length ls)),
      ap (λ a. s.slept ++ backoff (suc a) ∷ []) e,
      low,
      high,
      near,
      far,
      reloaded-last_loaded ls l (start_at c),
    )
