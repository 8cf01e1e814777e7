-- ===== src/Client/Foreground.antt =====
-- RunForeground of client/internal/daemon/daemon.go up to the loop of connectWithBackoff, which does
-- not return, and the firewall rules of client/internal/daemon/ufw.go.
use taildog.Prelude.{
  ℤ, String, Bool, true, false, List, [], ◌∷◌, ◌++◌, Result, ok, err, if◌then◌else◌,
}
use taildog.Client.Config.{Tunnel, Config, ConfigError}

pub data Verb : Type 0 where
  allow delete_allow : Verb

-- `sudo ufw allow 3000/http`: the protocol is the tunnel's.
pub record UfwRule : Type 0 where
  pub verb : Verb
  pub port : ℤ
  pub proto : String

unfoldable pub run_ufw : Bool → Verb → ℤ → String → List UfwRule
run_ufw available verb port proto =
    if available then record { verb = verb; port = port; proto = proto } ∷ [] else []

unfoldable pub ufw_allow : Bool → ℤ → String → List UfwRule
unfolding run_ufw
ufw_allow available port proto = run_ufw available allow port proto

-- The rules of all the tunnels, in order.
unfoldable pub allow_each : Bool → List Tunnel → List UfwRule
unfolding ufw_allow
allow_each available [] = []
allow_each available (t ∷ ts) =
    ufw_allow available t.local_port t.protocol ++ allow_each available ts

pub data StartError : Type 0 where
  log_dir_failed log_failed pid_failed : StartError
  loading : ConfigError → StartError

-- What MkdirAll, OpenFile and writePID answer, whether there is a PID file before and after a writePID
-- that fails, and whether ufw is there.
pub record Setup : Type 0 where
  pub makes_log_dir : Bool
  pub opens_log : Bool
  pub writes_pid : Bool
  pub pid_file_before : Bool
  pub pid_file_after_failure : Bool
  pub ufw_available : Bool

-- What is outside the process when the loop begins or RunForeground has returned.
pub record Traces : Type 0 where
  pub has_pid_file : Bool
  pub rules : List UfwRule

-- The deferred removePID runs where the configuration cannot be loaded.
after_load : Setup → Result ConfigError Config → Result StartError Config × Traces
after_load u (err e) = (err (loading e), record { has_pid_file = false; rules = [] })
after_load u (ok c) =
    (ok c, record { has_pid_file = true; rules = allow_each u.ufw_available c.tunnels })

-- `ok` enters the loop.
unfoldable pub run_foreground :
    Setup → Result ConfigError Config → Result StartError Config × Traces
unfolding after_load
run_foreground u loaded =
    let left : Bool → Traces = λ b. record { has_pid_file = b; rules = [] } in
    if u.makes_log_dir
    then if u.opens_log
      then if u.writes_pid
        then after_load u loaded
        else (err pid_failed, left u.pid_file_after_failure)
      else (err log_failed, left u.pid_file_before)
    else (err log_dir_failed, left u.pid_file_before)
