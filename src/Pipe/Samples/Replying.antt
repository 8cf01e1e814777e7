-- ===== src/Pipe/Samples/Replying.antt =====
-- The same relay and daemon in the other direction.
use taildog.Prelude.{refl, ◌≡◌, true, false, some, List, [], ◌∷◌, ◌++◌, string_key, nat_key, arith}
use taildog.Dict.{get}
use taildog.Control.{InFrame, ping}
use taildog.Control.Samples.{running}
use taildog.Client.Daemon.{
  DaemonFrame, hello, register, data_out, close_out, local_read, Event, run, tick,
}
use taildog.Client.Samples.Running.{bridged}
use taildog.Pipe.{Call, carried, heard, perform_all}
use taildog.Pipe.Connections.{conn_at}
use taildog.Pipe.Written.{sent_to}
use taildog.Pipe.Inward.{Serves, AllApart}
use taildog.Pipe.Replies.{read_bytes, Unopened}
use taildog.Pipe.Return.{IsFaithful, StaysOpen, heard_at, perform_all-run}
use taildog.Pipe.Samples.{bridge}

abbrev encoded : DaemonFrame → InFrame
encoded DaemonFrame.ping = ping
encoded (data_out c bytes) = InFrame.data_in c (some bytes)
encoded (close_out c) = InFrame.close_in c
encoded (hello c name v) = InFrame.other
encoded (register t) = InFrame.other

encoded-IsFaithful : IsFaithful encoded
encoded-IsFaithful = record {
  hellos = λ c name v. refl;
  registers = λ t. refl;
  pings = refl;
  payloads = λ c bytes. refl;
  closes = λ c. refl;
}

running-Serves : Serves 1 "x1" 7 running
unfolding conn_at get
running-Serves = record {
  has_it = refl;
  alone = λ r c e.
      ground
        (arith, e, nat_key.same_iff 1 r, string_key.same_iff "x1" c, string_key.same_iff "x2" c);
}

-- The service sends two chunks around a tick of the ping timer, and hangs up.
abbrev service : List Event
service =
    local_read true true "x1" (1 ∷ 2 ∷ []) false
    ∷ tick true
    ∷ local_read true true "x1" (3 ∷ []) true
    ∷ []

abbrev replies : List DaemonFrame
replies =
    data_out "x1" (1 ∷ 2 ∷ []) ∷ DaemonFrame.ping ∷ data_out "x1" (3 ∷ []) ∷ close_out "x1" ∷ []

abbrev heard_calls : List Call
heard_calls =
    heard true 1 (InFrame.data_in "x1" (some (1 ∷ 2 ∷ [])))
    ∷ heard true 1 ping
    ∷ carried true bridge (9 ∷ [])
    ∷ heard true 1 (InFrame.data_in "x1" (some (3 ∷ [])))
    ∷ heard true 1 (InFrame.close_in "x1")
    ∷ []

perform_all-run_example :
    sent_to 7 (perform_all heard_calls running).outside.written
    ≡ sent_to 7 running.outside.written ++ read_bytes "x1" service
unfolding AllApart StaysOpen Unopened run heard_at
perform_all-run_example =
    perform_all-run 1 "x1" 7 encoded encoded-IsFaithful heard_calls running service bridged replies
      running-Serves (tt, (tt, (tt, (tt, (tt, tt))))) tt tt refl refl
