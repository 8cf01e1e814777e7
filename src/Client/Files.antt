-- ===== src/Client/Files.antt =====
-- clientIDFromConfig and TailLog of client/internal/daemon/daemon.go. strings.TrimSpace is a parameter,
-- and so is what uuid.NewString answers.
use taildog.Prelude.{
  refl, ℕ, zero, suc, ◌-◌, String, Bool, true, false, string_key, ◌==◌, ltb, ◌≡◌, ◌≢◌, beq_ne,
  Option, none, some, List, [], ◌∷◌, length, if◌then◌else◌, Bool-cases, inl, inr,
}

module _ (trim_space : String → String) where
  -- The client's identifier and the file afterwards; `none` is a file that cannot be read, and `write`
  -- is what the file holds after WriteFile, whose error is ignored.
  unfoldable pub client_id_from_config :
      (String → Option String) → String → Option String → String × Option String
  client_id_from_config write new_id none = (new_id, write new_id)
  client_id_from_config write new_id (some s) =
      if trim_space s == "" then (new_id, write new_id) else (trim_space s, some s)

  -- Once it could be written, the identifier is the same at each call.
  client_id-client_id :
      (write later : String → Option String) (new_id later_id : String) (file : Option String)
      → trim_space new_id ≡ new_id
      → new_id ≢ ""
      → write new_id ≡ some new_id
      → let first = client_id_from_config write new_id file in
        client_id_from_config later later_id first.1 ≡ first
  unfolding client_id_from_config
  client_id-client_id write later new_id later_id none t ne w = rw (w, t, beq_ne new_id "" ne) refl
  client_id-client_id write later new_id later_id (some s) t ne w =
      elim (Bool-cases (trim_space s == "")) [
        | inl y ↦ rw (y, w, t, beq_ne new_id "" ne) refl
        | inr f ↦ rw (f, f) refl
      ]

-- The scanner's result: a file that is not there, an error, or the lines and the error at their end.
pub data Scan : Type 0 where
  no_log open_failed : Scan
  scanned : List String → Bool → Scan

pub data Tail : Type 0 where
  no_log_yet failed : Tail
  printed : List String → Tail

unfoldable pub slice_from : ℕ → List String → List String
slice_from zero ls = ls
slice_from (suc n) [] = []
slice_from (suc n) (l ∷ ls) = slice_from n ls

-- TailLog up to its loop: what it prints first.
unfoldable pub tail_log : ℕ → Scan → Tail
unfolding slice_from
tail_log n no_log = no_log_yet
tail_log n open_failed = failed
tail_log n (scanned lines true) = failed
tail_log n (scanned lines false) =
    printed (slice_from (if ltb n (length lines) then length lines - n else 0) lines)
