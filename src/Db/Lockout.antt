-- ===== src/Db/Lockout.antt =====
-- The login lockout: when CheckRateLimit refuses an address after a series of failed attempts.
use taildog.Prelude.{
  refl, ◌∙◌, ℕ, suc, ◌+◌, ◌≡◌, inl, inr, String, false, ◌&&◌, string_key, Option, none, some, List,
  [], ◌∷◌, arith, if◌then◌else◌, beq_refl, Option-cases, ok, leb, ltb, length,
}
use taildog.Dict.{Dict, get, get-put}
use taildog.Db.{
  Db, RateLimit, failed_row, locked_row, record_failed_attempt, check_rate_limit, reset_rate_limit,
  reset_rows,
}

-- Failed attempts of one address at the given times, oldest first, with no driver error.
unfoldable pub failures : String → List ℕ → Db → Db
failures ip [] d = d
failures ip (t ∷ ts) d = failures ip ts (record_failed_attempt ip t d).1

abbrev pub last_or : ℕ → List ℕ → ℕ
last_or d [] = d
last_or d (t ∷ ts) = last_or t ts

-- What a row says of the lock: no row is a row without attempts.
abbrev attempts_of : Option RateLimit → ℕ
attempts_of none = 0
attempts_of (some r) = r.attempts

abbrev lock_of : Option RateLimit → Option ℕ
lock_of none = none
lock_of (some r) = r.locked_until

abbrev lock_after : ℕ → Option ℕ → ℕ → ℕ → Option ℕ
lock_after a l t n = if leb 5 (a + n) then some (t + 600) else l

module _ (ip : String) where
  row-record_failed_attempt :
      (t : ℕ) (d : Db)
      → d.faults ≡ []
      → get ip (record_failed_attempt ip t d).1.rate_limit
        ≡ some (failed_row t (get ip d.rate_limit))
  unfolding record_failed_attempt
  row-record_failed_attempt t d e =
      rw (e, get-put ip ip (failed_row t (get ip d.rate_limit)) d.rate_limit, beq_refl ip) refl

  faults-record_failed_attempt :
      (t : ℕ) (d : Db) → d.faults ≡ [] → (record_failed_attempt ip t d).1.faults ≡ []
  unfolding record_failed_attempt
  faults-record_failed_attempt t d e = ground arith

  faults-failures : (ts : List ℕ) (d : Db) → d.faults ≡ [] → (failures ip ts d).faults ≡ []
  unfolding failures
  faults-failures [] d e = e
  faults-failures (t ∷ ts) d e = faults-failures ts _ (faults-record_failed_attempt t d e)

  attempts_of-failed_row :
      (t : ℕ) (o : Option RateLimit) → attempts_of (some (failed_row t o)) ≡ attempts_of o + 1
  attempts_of-failed_row t none = refl
  attempts_of-failed_row t (some r) = refl

  lock_of-failed_row :
      (t : ℕ) (o : Option RateLimit)
      → lock_of (some (failed_row t o)) ≡ lock_after (attempts_of o) (lock_of o) t 1
  lock_of-failed_row t none = refl
  lock_of-failed_row t (some r) = refl

  -- Each attempt counts, and the last one decides the lock from the fifth on.
  lock-failures :
      (t : ℕ) (ts : List ℕ) (d : Db)
      → d.faults ≡ []
      → lock_of (get ip (failures ip (t ∷ ts) d).rate_limit)
        ≡ lock_after
            (attempts_of (get ip d.rate_limit))
            (lock_of (get ip d.rate_limit))
            (last_or t ts)
            (suc (length ts))
  unfolding failures
  lock-failures t [] d e =
      rw (row-record_failed_attempt t d e) (lock_of-failed_row t (get ip d.rate_limit))
  lock-failures t (u ∷ ts) d e =
      lock-failures u ts (record_failed_attempt ip t d).1 (faults-record_failed_attempt t d e)
      ∙ rw
          (
            row-record_failed_attempt t d e,
            attempts_of-failed_row t (get ip d.rate_limit),
            lock_of-failed_row t (get ip d.rate_limit),
          )
          (ground arith)

  -- An address without a row, or with a row that was reset.
  abbrev pub IsFresh : Db → Type 0
  IsFresh d = (attempts_of (get ip d.rate_limit) ≡ 0) × (lock_of (get ip d.rate_limit) ≡ none)

  locked_row_lem :
      (now : ℕ) (o : Option RateLimit)
      → locked_row now o ≡ elim (lock_of o) [ none ↦ false | some t ↦ ltb now t ]
  locked_row_lem now none = refl
  locked_row_lem now (some r) = refl

  check_rate_limit_row :
      (now : ℕ) (d : Db)
      → d.faults ≡ []
      → (check_rate_limit ip now d).0 ≡ ok (locked_row now (get ip d.rate_limit))
  unfolding check_rate_limit
  check_rate_limit_row now d e = ground arith

  -- After one or more failed attempts of a fresh address, and no driver error, CheckRateLimit says
  -- locked exactly if there were at least five and ten minutes from the last are not over.
  pub lockout_exact :
      (d : Db) (t : ℕ) (ts : List ℕ) (now : ℕ)
      → d.faults ≡ []
      → IsFresh d
      → (check_rate_limit ip now (failures ip (t ∷ ts) d)).0
        ≡ ok (leb 5 (suc (length ts)) && ltb now (last_or t ts + 600))
  lockout_exact d t ts now e f =
      check_rate_limit_row now (failures ip (t ∷ ts) d) (faults-failures (t ∷ ts) d e)
      ∙ rw
          (
            locked_row_lem now (get ip (failures ip (t ∷ ts) d).rate_limit),
            lock-failures t ts d e,
            f.0,
            f.1,
          )
          (ground arith)

  get-reset_rows :
      (m : Dict String RateLimit)
      → (attempts_of (get ip (reset_rows ip m)) ≡ 0) × (lock_of (get ip (reset_rows ip m)) ≡ none)
  get-reset_rows m = elim (Option-cases (get ip m)) [
    | inl n ↦ rw (n, reset_rows) (rw n (refl, refl))
    | inr (r, s) ↦
        rw (s, reset_rows)
          (rw (get-put ip ip (record r { attempts = 0; locked_until = none }) m, beq_refl ip)
            (refl, refl))
  ]

  rate_limit-reset_rate_limit :
      (d : Db) → d.faults ≡ [] → (reset_rate_limit ip d).1.rate_limit ≡ reset_rows ip d.rate_limit
  unfolding reset_rate_limit
  rate_limit-reset_rate_limit d e = ground arith

  -- ResetRateLimit makes an address fresh, whatever its row says.
  pub reset_rate_limit-IsFresh : (d : Db) → d.faults ≡ [] → IsFresh (reset_rate_limit ip d).1
  reset_rate_limit-IsFresh d e = rw (rate_limit-reset_rate_limit d e) (get-reset_rows d.rate_limit)
