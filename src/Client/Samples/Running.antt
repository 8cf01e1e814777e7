-- ===== src/Client/Samples/Running.antt =====
-- A daemon with one local connection, a relay that answers, and the theorems there.
use taildog.Prelude.{
  refl, sym, ltb, eq_iff, if◌then◌else◌, ◌≡◌, ◌≤◌, ◌^◌, suc, ℕ, ℤ, pos, true, false, Option, none,
  some, List, [], ◌∷◌, ◌++◌, string_key, Result, ok, err, length, arith, beq_ne,
}
use taildog.Dict.{get, put, delete}
use taildog.Proxies.{Network}
use taildog.Client.Config.{Config, ConfigError, parse_failed}
use taildog.Client.Samples.{web, one_tunnel, two_tunnels}
use taildog.Client.Daemon.{Daemon, open_in, data_in, close_in, Event, frame, tick, run, step}
use taildog.Client.Daemon.Effects.{written_to, AllApart, IsApart}
use taildog.Client.Daemon.Receiving.{Owns, stream, run-stream}
use taildog.Client.Daemon.Handshake.{
  Peer, build_tls_config, connect, introduction, connect-introduction,
}
use taildog.Client.Daemon.Backoff.{rounds, round, start_at, last_loaded, round-wait}
use taildog.Client.Process.{Host, holding, esrch}

-- Nothing listens on the local port.
abbrev pub refuses : Network → ℤ → Option ℕ
refuses net port = none

abbrev pub bridged : Daemon
bridged = record {
  tunnels = web ∷ [];
  sent = [];
  local_conns = ("x1", 5) ∷ [];
  written = [];
  closed = [];
}

pub bridged-Owns : Owns "x1" 5 bridged.local_conns
unfolding get
bridged-Owns = record {
  has_it = refl;
  alone = λ c far. ground (arith, beq_ne "x1" c (λ e. far (sym e)));
}

-- Two chunks arrive, the second while another connection is refused; then the relay closes.
abbrev visit : List Event
visit =
    frame true refuses (data_in "x1" (some (1 ∷ 2 ∷ [])))
    ∷ frame true refuses (open_in "t1" "x2" (pos 3000) "tcp")
    ∷ tick true
    ∷ frame true refuses (data_in "x1" (some (3 ∷ [])))
    ∷ frame true refuses (close_in "x1")
    ∷ frame true refuses (data_in "x1" (some (4 ∷ [])))
    ∷ []

run-stream_example :
    written_to 5 (run visit bridged).written ≡ written_to 5 [] ++ stream "x1" 5 visit
unfolding AllApart IsApart
run-stream_example = run-stream "x1" 5 visit bridged bridged-Owns (
  tt,
  (((λ e. ground (arith, (eq_iff "x2" "x1").1 e)), λ net p e. cc), (tt, (tt, (tt, (tt, tt))))),
)

visited : (run visit bridged).written ≡ (5, 1 ∷ 2 ∷ []) ∷ (5, 3 ∷ []) ∷ []
unfolding run get delete
visited = refl

abbrev relay : Peer
relay = record {
  read_file = λ path. none;
  has_certs = λ bytes. false;
  dials = λ host t. true;
  writes = λ i. true;
  welcomes = true;
  hostname = "laptop";
}

connect-introduction_example :
    ((connect relay two_tunnels "c1").0 ≡ ok tt)
    × ((connect relay two_tunnels "c1").1.sent ≡ introduction relay two_tunnels "c1")
unfolding build_tls_config
connect-introduction_example =
    connect-introduction relay two_tunnels
      (record { insecure_skip_verify = true; root_cas = none; server_name = "" }) "c1"
      (record {
        named = refl;
        configured = refl;
        dialled = refl;
        writable = λ i. refl;
        welcomed = refl;
      })

-- Five connections were lost, and one reload failed.
abbrev losses : List (Result ConfigError Config)
losses = ok one_tunnel ∷ err parse_failed ∷ ok two_tunnels ∷ ok one_tunnel ∷ ok one_tunnel ∷ []

round-wait_example :
    let s = rounds losses (start_at two_tunnels) in
    (w : ℕ) × ((round (err parse_failed) s).slept ≡ s.slept ++ w ∷ [])
    × (2 ≤ w)
    × (w ≤ 60)
    × (length losses ≤ 4 → w ≡ 2 ^ suc (length losses))
    × (5 ≤ length losses → w ≡ 60)
    × ((round (err parse_failed) s).cfg ≡ last_loaded (losses ++ err parse_failed ∷ []) two_tunnels)
round-wait_example = round-wait losses (err parse_failed) two_tunnels

-- The process is gone at the third look.
abbrev leaving : ℕ → Host
leaving i = record {
  pid_file = holding "4711";
  find_process = λ pid. true;
  probe = λ pid. if ltb i 3 then none else some esrch;
  takes_term = λ pid. true;
}

-- An open frame without a port falls back to the configuration.
open_falls_back :
    (step (frame true (λ net port. some 8) (open_in "t1" "x9" (pos 0) "")) bridged).local_conns
    ≡ ("x1", 5) ∷ ("x9", 8) ∷ []
unfolding step put
open_falls_back = refl
