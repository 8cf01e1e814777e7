-- ===== src/Client/Process.antt =====
-- The daemon as a process: the PID file and Start of client/internal/daemon/daemon.go, IsRunning and
-- Stop of proc_unix.go, and the commands `up`, `down` and `status` of client/main.go. What the system
-- answers at one moment is a `Host`; strings.TrimSpace is a parameter.
pub mod Stopping
pub mod Windows
use taildog.Prelude.{
  ℕ, zero, suc, ℤ, pos, String, Bool, true, false, not, nat_key, string_key, ◌==◌, Option, none,
  some, List, [], ◌∷◌, map, length, atoi, Result, ok, err, if◌then◌else◌,
}
use taildog.Client.Config.{Tunnel, Config, Yaml, Disk, ConfigError, load, save}
use taildog.Client.Daemon.{is_zero}

-- What ReadFile finds at the path of the PID file.
pub data PidFile : Type 0 where
  missing unreadable : PidFile
  holding : String → PidFile

-- The errors of Signal(0) that the code tells apart: os.ErrProcessDone, ESRCH, EPERM, others.
pub data SignalError : Type 0 where
  process_done esrch eperm unknown : SignalError

pub record Host : Type 0 where
  pub pid_file : PidFile
  pub find_process : ℤ → Bool
  pub probe : ℤ → Option SignalError
  pub takes_term : ℤ → Bool

pub data ProcessError : Type 0 where
  pid_unreadable pid_malformed not_running no_executable log_dir_failed log_failed not_started :
      ProcessError
  not_found not_signalled already_running exited : ℤ → ProcessError
  relay_host_required : ProcessError
  loading saving : ConfigError → ProcessError

pid_of : Option ℤ → Result ProcessError ℤ
pid_of none = err pid_malformed
pid_of (some pid) = ok pid

-- An EPERM says that the process is there, of another user.
abbrev pub answers : Option SignalError → Bool
answers none = true
answers (some eperm) = true
answers (some e) = false

-- What Stop did.
pub record Stopped : Type 0 where
  pub answer : Result ProcessError (Unit {0})
  pub terminated : List ℤ
  pub killed : List ℤ
  pub removed : Bool

abbrev pub refused : ProcessError → Stopped
refused e = record { answer = err e; terminated = []; killed = []; removed = false }

-- What Start finds: os.Executable, MkdirAll, OpenFile, StartProcess, and the host 300 ms later.
pub record Launch : Type 0 where
  pub has_executable : Bool
  pub makes_log_dir : Bool
  pub opens_log : Bool
  pub process : Option ℤ
  pub later : Host

pub record StatusReport : Type 0 where
  pub daemon : Option ℤ
  pub relay : String
  pub relay_port : ℤ
  pub tunnel_count : ℕ
  pub rows : List (Tunnel × String)

module _ (trim_space : String → String) where
  unfoldable pub read_pid_file : PidFile → Result ProcessError ℤ
  unfolding pid_of
  read_pid_file missing = ok (pos 0)
  read_pid_file unreadable = err pid_unreadable
  read_pid_file (holding s) = pid_of (atoi (trim_space s))

  unfoldable pub is_running : Host → Result ProcessError (Bool × ℤ)
  unfolding read_pid_file
  is_running h = elim (read_pid_file h.pid_file) [
    | err e ↦ err e
    | ok pid ↦
        if is_zero pid
        then ok (false, pos 0)
        else if h.find_process pid
        then ok (answers (h.probe pid), pid)
        else ok (false, pid)
  ]

  -- alive, _, _ := IsRunning(): an error counts as not running.
  unfoldable pub alive : Host → Bool
  unfolding is_running
  alive h = elim (is_running h) [ err e ↦ false | ok r ↦ r.0 ]

  -- The loop: `left` rounds are left, and the next one is the i-th look at the host.
  unfoldable pub wait_exit : ℕ → ℕ → (ℕ → Host) → Bool
  unfolding alive
  wait_exit zero i hosts = false
  wait_exit (suc left) i hosts =
      let later = wait_exit left (suc i) hosts in if alive (hosts i) then later else true

  -- `hosts 0` is what Stop finds, `hosts 1` what it finds 100 ms after the signal, and so on.
  unfoldable pub stop_process : ℤ → (ℕ → Host) → Stopped
  unfolding wait_exit
  stop_process pid hosts =
      if not ((hosts 0).find_process pid)
      then refused (not_found pid)
      else if not ((hosts 0).takes_term pid)
      then refused (not_signalled pid)
      else record {
        answer = ok tt;
        terminated = pid ∷ [];
        killed = if wait_exit 50 1 hosts then [] else pid ∷ [];
        removed = true;
      }

  unfoldable pub stop : (ℕ → Host) → Stopped
  unfolding stop_process is_running
  stop hosts = elim (is_running (hosts 0)) [
    | err e ↦ refused e
    | ok r ↦ if r.0 then stop_process r.1 hosts else refused not_running
  ]

  unfoldable pub start : Host → Launch → Result ProcessError ℤ
  unfolding is_running alive
  start h l = elim (is_running h) [
    | err e ↦ err e
    | ok r ↦
        if r.0
        then err (already_running r.1)
        else if not l.has_executable
        then err no_executable
        else if not l.makes_log_dir
        then err log_dir_failed
        else if not l.opens_log
        then err log_failed
        else elim l.process [
          | none ↦ err not_started
          | some pid ↦ if alive l.later then ok pid else err (exited pid)
        ]
  ]

  module _ (y : Yaml) where
    up_with :
        String → Result ConfigError Config → Disk → Host → Launch → Result ProcessError ℤ × Disk
    unfolding start
    up_with host (err e) d h l = (err (loading e), d)
    up_with host (ok c) d h l =
        let stored = save y (record c { relay_host = host }) d in
        elim stored.0 [ err e ↦ (err (saving e), stored.1) | ok v ↦ (start h l, stored.1) ]

    -- `renode up`, not in the foreground.
    unfoldable pub cmd_up : Option String → Disk → Host → Launch → Result ProcessError ℤ × Disk
    unfolding up_with
    cmd_up none d h l = (err relay_host_required, d)
    cmd_up (some host) d h l = up_with host (load y d) d h l

    report : Config → Bool × ℤ → StatusReport
    report c (running, pid) = record {
      daemon = if running then some pid else none;
      relay = if c.relay_host == "" then "(not configured)" else c.relay_host;
      relay_port = c.relay_port;
      tunnel_count = length c.tunnels;
      rows = map (λ t. (t, if running then "active" else "inactive")) c.tunnels;
    }

    -- `renode status`.
    unfoldable pub cmd_status : Disk → Host → Result ProcessError StatusReport
    unfolding is_running report
    cmd_status d h = elim (load y d) [
      | err e ↦ err (loading e)
      | ok c ↦ elim (is_running h) [ err e ↦ err e | ok r ↦ ok (report c r) ]
    ]
