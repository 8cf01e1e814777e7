-- ===== src/Client/Process/Windows.antt =====
-- IsRunning and Stop of client/internal/daemon/proc_windows.go. Stop looks for the process fifty times
-- after the kill, and answers the same whether or not it is gone, so the looks leave no trace here.
use taildog.Prelude.{
  refl, arith, ℕ, ℤ, pos, String, Bool, true, false, nat_key, ◌==◌, ◌≡◌, Option, none, some, [],
  ◌∷◌, Result, ok, err, if◌then◌else◌, Bool-cases, Result-cases, inl, inr,
}
use taildog.Client.Daemon.{is_zero}
use taildog.Client.Process.{
  PidFile, ProcessError, not_running, not_found, not_signalled, read_pid_file, Stopped, refused,
}

-- What OpenProcess, GetExitCodeProcess, FindProcess and Kill answer.
pub record Windows : Type 0 where
  pub pid_file : PidFile
  pub opens : ℤ → Bool
  pub exit_code : ℤ → Option ℕ
  pub find_process : ℤ → Bool
  pub kills : ℤ → Bool

-- STILL_ACTIVE.
abbrev pub still_active : Option ℕ → Bool
still_active none = false
still_active (some code) = code == 259

module _ (trim_space : String → String) where
  unfoldable pub is_running : Windows → Result ProcessError (Bool × ℤ)
  unfolding read_pid_file
  is_running h = elim (read_pid_file trim_space h.pid_file) [
    | err e ↦ err e
    | ok pid ↦
        if is_zero pid
        then ok (false, pos 0)
        else if h.opens pid
        then ok (still_active (h.exit_code pid), pid)
        else ok (false, pid)
  ]

  unfoldable pub kill_process : ℤ → Windows → Stopped
  kill_process pid h =
      if h.find_process pid
      then if h.kills pid
        then record { answer = ok tt; terminated = []; killed = pid ∷ []; removed = true }
        else refused (not_signalled pid)
      else refused (not_found pid)

  unfoldable pub stop : Windows → Stopped
  unfolding kill_process is_running
  stop h = elim (is_running h) [
    | err e ↦ refused e
    | ok r ↦ if r.0 then kill_process r.1 h else refused not_running
  ]

  -- The PID file is removed only after the process that it names was found running and killed.
  stop-removed :
      (h : Windows)
      → (stop h).removed ≡ true
      → (pid : ℤ) × (is_running h ≡ ok (true, pid))
        × ((stop h).killed ≡ pid ∷ [])
        × (h.kills pid ≡ true)
  unfolding stop kill_process
  stop-removed h r = elim (Result-cases (is_running h)) [
    | inl (e, q) ↦ absurd (ground (arith, q, r))
    | inr ((false, pid), q) ↦ absurd (ground (arith, q, r))
    | inr ((true, pid), q) ↦ elim (Bool-cases (h.find_process pid)) [
      | inr f ↦ absurd (ground (arith, q, f, r))
      | inl y ↦ elim (Bool-cases (h.kills pid)) [
        | inr f ↦ absurd (ground (arith, q, y, f, r))
        | inl k ↦ (pid, q, rw (stop, q, kill_process, y, k) refl, k)
      ]
    ]
  ]
