-- ===== src/Poller.antt =====
-- The polling loop: pkg/controlplane/internal/poller.go, over the queue adapter of
-- pkg/controlplane/fx/fxmodule.go. What happens outside (the fetcher's answer, room in the queue,
-- cancellation, clocks) is the environment of an iteration; the backoff library is a parameter.
pub mod Conservation
pub mod Limit
pub mod Progress
pub mod Loop
use tunnel_client.Base.{
  ℕ, ◌+◌, ◌-◌, Bool, true, false, not, ◌&&◌, Option, none, some, List, [], ◌∷◌, ltb, ◌==◌,
  if◌then◌else◌, Bytes, is_empty, Time, Duration, millisecond, second, is_some,
}
use tunnel_client.ErrorView.{ErrorView, health_failure}
use tunnel_client.RetryAfter.{retry_delay}
use tunnel_client.Health.Poll
use tunnel_client.Health.Poll.{PollHealth}
use tunnel_client.Health.Queue
use tunnel_client.Health.Queue.{QueueHealth}

abbrev pub default_backoff_min : Duration
default_backoff_min = 200000000

abbrev pub max_poll_batch_size : ℕ
max_poll_batch_size = 25

unfoldable pub poll_limit : ℕ → ℕ
poll_limit available = if ltb max_poll_batch_size available then max_poll_batch_size else available

-- A queue without a buffer has one slot.
unfoldable pub available_slots : (capacity queued : ℕ) → ℕ
available_slots capacity queued = if capacity == 0 then 1 else capacity - queued

-- A command, with its discriminator if it is a typed one.
pub record PolledCommand : Type 0 where
  pub request_id : Bytes
  pub command_type : Option Bytes

abbrev has_type : Option Bytes → Bool
has_type none = false
has_type (some t) = not (is_empty t)

abbrev pub is_typed : PolledCommand → Bool
is_typed c = has_type c.command_type

-- The two health components that the loop and its queue report to.
pub record Observers : Type 0 where
  pub poll : PollHealth
  pub queue : QueueHealth

-- One round of `enqueueWithBackpressure`: whether the context has ended, whether the queue takes
-- the command, whether the wait for room ends by its timer, and the instants at which the round
-- takes its branch and at which the wait is over.
pub record Turn : Type 0 where
  pub ctx_done : Bool
  pub takes : Bool
  pub wait_ok : Bool
  pub now : Time
  pub resumed_at : Time

-- `waitForQueue`: it ends the pressure that it reports.
unfoldable pub wait_for_queue : (now resumed_at : Time) → Observers → Observers
unfolding Poll.backpressure_seen Queue.backpressure
wait_for_queue now resumed_at o = record {
  poll = Poll.backpressure_seen now o.poll;
  queue = Queue.backpressure resumed_at false (Queue.backpressure now true o.queue);
}

unfoldable pub queue_took : Time → Observers → Observers
unfolding Queue.enqueue_seen
queue_took now o = record o { queue = Queue.enqueue_seen now o.queue }

-- `none` while the command still waits for room after all the turns.
unfoldable pub enqueue_with_backpressure :
    List Turn → Observers → Option (Bool × Observers × List Turn)
unfolding wait_for_queue queue_took
enqueue_with_backpressure [] o = none
enqueue_with_backpressure (t ∷ ts) o =
    let again = enqueue_with_backpressure ts (wait_for_queue t.now t.resumed_at o) in
    if t.ctx_done
    then some (false, o, ts)
    else if t.takes
    then some (true, queue_took t.now o, ts)
    else (if t.wait_ok then again else some (false, wait_for_queue t.now t.resumed_at o, ts))

-- What became of a batch: the commands enqueued in order, and the two counts of drops.
pub record Batch : Type 0 where
  pub enqueued : List PolledCommand
  pub dropped_invalid_type : ℕ
  pub dropped_context_closed : ℕ
  pub observers : Observers
  pub turns : List Turn

abbrev pub count_typed : List PolledCommand → ℕ
count_typed [] = 0
count_typed (c ∷ cs) = (if is_typed c then 1 else 0) + count_typed cs

abbrev pub count_untyped : List PolledCommand → ℕ
count_untyped [] = 0
count_untyped (c ∷ cs) = (if is_typed c then 0 else 1) + count_untyped cs

abbrev pub add_invalid : Option Batch → Option Batch
add_invalid none = none
add_invalid (some b) = some (record b { dropped_invalid_type = b.dropped_invalid_type + 1 })

abbrev pub add_enqueued : PolledCommand → Option Batch → Option Batch
add_enqueued c none = none
add_enqueued c (some b) = some (record b { enqueued = c ∷ b.enqueued })

-- A command that cannot be enqueued ends the batch: it and the rest are counted as dropped.
unfoldable pub after_enqueue :
    PolledCommand
    → List PolledCommand
    → (List Turn → Observers → Option Batch)
    → Option (Bool × Observers × List Turn)
    → Option Batch
after_enqueue c cs rest none = none
after_enqueue c cs rest (some (true, o, ts)) = add_enqueued c (rest ts o)
after_enqueue c cs rest (some (false, o, ts)) = some (record {
  enqueued = [];
  dropped_invalid_type = count_untyped cs;
  dropped_context_closed = 1 + count_typed cs;
  observers = o;
  turns = ts;
})

unfoldable pub deliver : List PolledCommand → List Turn → Observers → Option Batch
unfolding after_enqueue enqueue_with_backpressure
deliver [] ts o = some (record {
  enqueued = [];
  dropped_invalid_type = 0;
  dropped_context_closed = 0;
  observers = o;
  turns = ts;
})
deliver (c ∷ cs) ts o =
    if is_typed c
    then after_enqueue c cs (deliver cs) (enqueue_with_backpressure ts o)
    else add_invalid (deliver cs ts o)
