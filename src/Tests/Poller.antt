-- ===== src/Tests/Poller.antt =====
-- The polling loop on concrete polls.
use tunnel_client.Base.{
  ℕ, ◌+◌, ◌≡◌, refl, true, false, Option, none, some, List, [], ◌∷◌, arith, codes, Duration, Bytes,
}
use tunnel_client.ErrorView.{ErrorView}
use tunnel_client.Health.Poll.{new_poll_health}
use tunnel_client.Health.Queue.{new_queue_health}
use tunnel_client.Poller.{PolledCommand, Observers, Turn, Batch, deliver}
use tunnel_client.Poller.Conservation.{IsDelivered, deliver-IsDelivered}
use tunnel_client.Poller.Loop.{
  Pass, Fetched, Poller, pass, polled, fetched, fetch_failed, run, poll_failed,
}
use tunnel_client.Poller.Loop.Served.{served, run-Serves}

abbrev command : Option Bytes → PolledCommand
command t = record { request_id = codes "r"; command_type = t }

abbrev commands : List PolledCommand
commands = command (some (codes "jsonrpc")) ∷ command none ∷ command (some (codes "ping")) ∷ []

abbrev waits_for_room : Turn
waits_for_room = record { ctx_done = false; takes = false; wait_ok = true; now = 5; resumed_at = 6 }

abbrev takes_it : Turn
takes_it = record { ctx_done = false; takes = true; wait_ok = true; now = 6; resumed_at = 7 }

abbrev shuts_down : Turn
shuts_down = record { ctx_done = true; takes = false; wait_ok = false; now = 7; resumed_at = 8 }

abbrev observers : Observers
observers = record { poll = new_poll_health 1 2; queue = new_queue_health }

abbrev turns : List Turn
turns = waits_for_room ∷ takes_it ∷ shuts_down ∷ []

abbrev batch_of : Option Batch → Batch
batch_of none = record {
  enqueued = [];
  dropped_invalid_type = 0;
  dropped_context_closed = 0;
  observers = observers;
  turns = [];
}
batch_of (some b) = b

deliver-IsDelivered_example :
    IsDelivered commands observers (batch_of (deliver commands turns observers))
unfolding deliver
deliver-IsDelivered_example =
    deliver-IsDelivered commands turns observers (batch_of (deliver commands turns observers))
      (omega arith) refl

abbrev timeout : ErrorView
timeout = record {
  api_status = some 503;
  is_deadline = false;
  is_canceled = false;
  network_timeout = none;
}

abbrev poller : Poller ℕ
poller = record { backoff = 0; had_poll_error = false; observers = observers }

abbrev draw : ℕ → Duration × ℕ
draw n = (n + 1, n + 1)

abbrev reset : ℕ → ℕ
reset n = 0

abbrev pass_with : Fetched → List Turn → Pass
pass_with answer turns = record {
  ctx_done = false;
  capacity = 40;
  queued = 10;
  wait_ok = true;
  started = 3;
  answer = answer;
  ctx_ended = false;
  finished = 4;
  resumed_at = 4;
  retry_ok = true;
  turns = turns;
}

abbrev passes : List Pass
passes =
    pass_with (fetched commands) (waits_for_room ∷ takes_it ∷ takes_it ∷ [])
    ∷ pass_with (fetch_failed timeout (90, true)) []
    ∷ pass_with (fetched commands) (takes_it ∷ takes_it ∷ [])
    ∷ []

run-Serves_example : (run draw reset passes poller).ran_enqueued ≡ served passes
unfolding run pass polled poll_failed deliver
run-Serves_example = run-Serves draw reset passes poller (ground arith) refl
