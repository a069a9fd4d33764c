-- ===== src/Poller/Loop.antt =====
-- `Run` of pkg/controlplane/internal/poller.go: one pass of the loop, and the loop over a
-- sequence of passes. The backoff library is a state with a draw and a reset.
pub mod Served
use tunnel_client.Base.{
  ℕ, ◌-◌, Bool, true, false, not, ◌&&◌, Option, none, some, List, [], ◌∷◌, ◌++◌, ltb, ◌==◌,
  if◌then◌else◌, Bytes, is_empty, Time, Duration, is_some,
}
use tunnel_client.ErrorView.{ErrorView, health_failure}
use tunnel_client.RetryAfter.{retry_delay}
use tunnel_client.Health.Poll
use tunnel_client.Poller.{
  PolledCommand, Observers, Turn, Batch, deliver, wait_for_queue, poll_limit, available_slots,
  default_backoff_min,
}

-- What the fetcher answers: commands, or an error with the hint of a status error.
pub data Fetched : Type 0 where
  fetched : List PolledCommand → Fetched
  fetch_failed : ErrorView → (retry_after : Duration × Bool) → Fetched

-- The environment of one pass of the loop; `started` and `resumed_at` are also the instants around a
-- wait for room.
pub record Pass : Type 0 where
  pub ctx_done : Bool
  pub capacity : ℕ
  pub queued : ℕ
  pub wait_ok : Bool
  pub started : Time
  pub answer : Fetched
  pub ctx_ended : Bool
  pub finished : Time
  pub resumed_at : Time
  pub retry_ok : Bool
  pub turns : List Turn

pub record Poller (B : Type 0) : Type 0 where
  pub backoff : B
  pub had_poll_error : Bool
  pub observers : Observers

-- The state after a pass, with the commands enqueued, the limit asked for if a poll was made, and
-- the wait before a retry if there was one.
pub record Passed (B : Type 0) : Type 0 where
  pub poller : Poller B
  pub enqueued : List PolledCommand
  pub limit : Option ℕ
  pub retry_wait : Option Duration

pub data PassResult (B : Type 0) : Type 0 where
  goes_on : Passed B → PassResult B
  stops : Passed B → PassResult B
  waits : PassResult B

abbrev pub no_poll : {B : Type 0} → Poller B → Passed B
no_poll p = record { poller = p; enqueued = []; limit = none; retry_wait = none }

abbrev pub ends : {B : Type 0} → Bool → Passed B → PassResult B
ends true p = goes_on p
ends false p = stops p

abbrev pub set_poll : Poll.PollHealth → Observers → Observers
set_poll h o = record o { poll = h }

-- A batch of commands, where it ended.
unfoldable pub after_batch : {B : Type 0} → Poller B → ℕ → Option Batch → PassResult B
after_batch p limit none = waits
after_batch p limit (some b) = goes_on (record {
  poller = record p { observers = b.observers };
  enqueued = b.enqueued;
  limit = some limit;
  retry_wait = none;
})

-- What a successful poll resets.
abbrev pub recover : {B : Type 0} → (B → B) → Time → Poller B → Poller B
recover reset now p = record {
  backoff = reset p.backoff;
  had_poll_error = false;
  observers = set_poll (Poll.succeeded now p.observers.poll) p.observers;
}

-- `waitForRetry` replaces a delay of 0.
abbrev pub retry_wait_of : Duration → Duration
retry_wait_of d = if d == 0 then default_backoff_min else d

module _ {B : Type 0} (draw : B → Duration × B) (reset : B → B) where
  -- The branch for a failed poll.
  unfoldable pub poll_failed : Pass → ℕ → ErrorView → Duration × Bool → Poller B → PassResult B
  unfolding retry_delay health_failure Poll.failed
  poll_failed i limit view hint p =
      if i.ctx_ended && view.is_canceled
      then stops (record { poller = p; enqueued = []; limit = some limit; retry_wait = none })
      else let delay =
          (if is_some view.api_status
            then retry_delay (draw p.backoff).0 hint.0 hint.1
            else (draw p.backoff).0) in
        ends i.retry_ok (record {
          poller = record {
            backoff = (draw p.backoff).1;
            had_poll_error = true;
            observers =
                set_poll
                  (Poll.failed i.finished (health_failure view).0 (health_failure view).1 delay
                    p.observers.poll)
                  p.observers;
          };
          enqueued = [];
          limit = some limit;
          retry_wait = some (retry_wait_of delay);
        })

  unfoldable pub polled : Pass → ℕ → Fetched → Poller B → PassResult B
  unfolding poll_failed deliver after_batch Poll.succeeded
  polled i limit (fetch_failed view hint) p = poll_failed i limit view hint p
  polled i limit (fetched commands) p =
      after_batch (recover reset i.finished p) limit
        (deliver commands i.turns (recover reset i.finished p).observers)

  -- One pass of the loop.
  unfoldable pub pass : Pass → Poller B → PassResult B
  unfolding available_slots poll_limit wait_for_queue polled Poll.start_attempt
  pass i p =
      if i.ctx_done
      then stops (no_poll p)
      else let available = available_slots i.capacity i.queued in
        if available == 0
        then ends i.wait_ok
            (no_poll (record p { observers = wait_for_queue i.started i.resumed_at p.observers }))
        else polled i (poll_limit available) i.answer (record p {
          observers = set_poll (Poll.start_attempt i.started p.observers.poll) p.observers;
        })

  -- What a run has done: whether it goes on, the state it is in, and all it enqueued.
  pub record Ran : Type 0 where
    pub running : Bool
    pub poller : Poller B
    pub ran_enqueued : List PolledCommand

  abbrev pub extend : List PolledCommand → Ran → Ran
  extend cs r = record r { ran_enqueued = cs ++ r.ran_enqueued }

  abbrev pub stop : Time → Poller B → Poller B
  stop now p = record p { observers = set_poll (Poll.stopped_at now p.observers.poll) p.observers }

  -- A command that waits for room for ever holds the run where it is.
  unfoldable pub run_next : (Poller B → Ran) → Time → Poller B → PassResult B → Ran
  unfolding Poll.stopped_at
  run_next next now p (goes_on q) = extend q.enqueued (next q.poller)
  run_next next now p (stops q) = record {
    running = false;
    poller = stop now q.poller;
    ran_enqueued = q.enqueued;
  }
  run_next next now p waits = record { running = false; poller = p; ran_enqueued = [] }

  unfoldable pub run : List Pass → Poller B → Ran
  unfolding run_next pass
  run [] p = record { running = true; poller = p; ran_enqueued = [] }
  run (i ∷ is) p = run_next (run is) i.finished p (pass i p)
