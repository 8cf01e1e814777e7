-- ===== src/Client/Process/Stopping.antt =====
-- What `renode down` achieves.
use taildog.Prelude.{ℕ, ◌≤◌, ℤ, String, true, false, ◌≡◌, [], ◌∷◌, nat_key, ok}
use taildog.Client.Process.{Host, ProcessError, is_running, alive, Stopped, refused}

module _ (trim_space : String → String) where
  -- How a stop ends.
  pub data StopOutcome (hosts : ℕ → Host) (x : Stopped) : Type 0 where
    untouched : (e : ProcessError) → x ≡ refused e → StopOutcome hosts x
    exited :
        (pid : ℤ) (j : ℕ)
        → is_running trim_space (hosts 0) ≡ ok (true, pid)
        → x ≡ record { answer = ok tt; terminated = pid ∷ []; killed = []; removed = true }
        → (1 ≤ j) × (j ≤ 50)
        → alive trim_space (hosts j) ≡ false
        → StopOutcome hosts x
    forced :
        (pid : ℤ)
        → is_running trim_space (hosts 0) ≡ ok (true, pid)
        → x ≡ record { answer = ok tt; terminated = pid ∷ []; killed = pid ∷ []; removed = true }
        → ((j : ℕ) → 1 ≤ j → j ≤ 50 → alive trim_space (hosts j) ≡ true)
        → StopOutcome hosts x
