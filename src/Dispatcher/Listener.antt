-- ===== src/Dispatcher/Listener.antt =====
-- The listener that drains the queue of commands into a pool of workers:
-- pkg/dispatcher/internal/queue_listener.go, with its health attached. An event is one section of the
-- listener's goroutine or of a worker; a list of events is an interleaving. Commands are numbered
-- as they are polled.
pub mod Moved
pub mod Conserved
use tunnel_client.Base.{
  ℕ, zero, suc, ◌+◌, Bool, true, false, not, ◌&&◌, ◌||◌, Option, none, some, List, [], ◌∷◌, ◌++◌,
  if◌then◌else◌, Time, get_elem?,
}
use tunnel_client.ErrorView.{ErrorView}
use tunnel_client.Health.Queue.{QueueHealth, new_queue_health, dequeue_seen}
use tunnel_client.Activity.{
  ActivityHealth, new_activity_health, set_accepting, stopped, begin, finish, WorkOutcome,
  record_work_failure,
}

-- Where the listener's goroutine is: before `Start`; in `select`; with a command that the pool
-- refused, before and during its processing; past the loop, with the pool being released; ended;
-- or gone with the process, after a panic in the processing of its own.
pub data Phase : Type 0 where
  not_started selecting releasing ended crashed : Phase
  refused : (command : ℕ) → Phase
  inline : Phase

-- A call of `processObserved`; `slot` is what `begin` gave it.
pub record Task : Type 0 where
  pub command : ℕ
  pub slot : Option ℕ
  pub is_inline : Bool

-- `submitted` are the tasks of the pool that no worker has begun.
pub record Listener : Type 0 where
  pub queue : List ℕ
  pub closed : Bool
  pub canceled : Bool
  pub phase : Phase
  pub submitted : List ℕ
  pub running : List Task
  pub processed : List ℕ
  pub queue_health : QueueHealth
  pub activity : ActivityHealth

abbrev pub new_listener : (pool_limit : Option ℕ) → Listener
new_listener pool_limit = record {
  queue = [];
  closed = false;
  canceled = false;
  phase = not_started;
  submitted = [];
  running = [];
  processed = [];
  queue_health = new_queue_health;
  activity = new_activity_health pool_limit;
}

pub data Event : Type 0 where
  -- The poller puts a command into the queue, or closes it; the context is canceled.
  offered : (command : ℕ) → Event
  queue_closed : Event
  context_canceled : Event
  starts : Event
  -- `select` takes a command, and the pool takes its task or not.
  takes : Time → (accepted : Bool) → Event
  -- `select` finds the context done, or the queue closed and empty.
  leaves : Event
  -- A worker begins the task at that place; the listener begins the command that was refused.
  task_begins : (place : ℕ) → Time → Event
  inline_begins : Time → Event
  -- The call of `Process` at that place returns, or panics.
  task_ends :
      (place : ℕ)
      → Time
      → (finished : Bool) → Option ErrorView
      → (cause_deadline : Bool) → WorkOutcome
      → Event
  pool_released : Event

abbrev pub drop_at : {A : Type 0} → ℕ → List A → List A
drop_at k [] = []
drop_at zero (x ∷ xs) = xs
drop_at (suc k) (x ∷ xs) = x ∷ drop_at k xs

abbrev phase_after : (accepted : Bool) → (command : ℕ) → Phase
phase_after true command = selecting
phase_after false command = refused command

abbrev submitted_after : (accepted : Bool) → (command : ℕ) → List ℕ → List ℕ
submitted_after true command tasks = tasks ++ (command ∷ [])
submitted_after false command tasks = tasks

unfoldable pub take_command : Time → (accepted : Bool) → List ℕ → Listener → Listener
unfolding dequeue_seen
take_command now accepted [] l = l
take_command now accepted (c ∷ cs) l = record l {
  queue = cs;
  queue_health = dequeue_seen now l.queue_health;
  submitted = submitted_after accepted c l.submitted;
  phase = phase_after accepted c;
}

abbrev pub is_empty_queue : List ℕ → Bool
is_empty_queue [] = true
is_empty_queue (c ∷ cs) = false

-- The deferred calls up to the release of the pool.
unfoldable pub leave_loop : Listener → Listener
unfolding set_accepting
leave_loop l =
    if l.canceled || (l.closed && is_empty_queue l.queue)
    then record l { phase = releasing; activity = set_accepting false l.activity }
    else l

-- `processObserved` up to the call of `Process`.
unfoldable pub begin_task : ℕ → (is_inline : Bool) → Time → Listener → Listener
unfolding begin
begin_task c is_inline now l = record l {
  running =
      record { command = c; slot = (begin now l.activity).0; is_inline = is_inline } ∷ l.running;
  activity = (begin now l.activity).1;
}

unfoldable pub begin_submitted : (place : ℕ) → Option ℕ → Time → Listener → Listener
unfolding begin_task
begin_submitted place none now l = l
begin_submitted place (some c) now l = record (begin_task c false now l) {
  submitted = drop_at place l.submitted;
}

abbrev pub resumed_inline : (finished : Bool) → Phase
resumed_inline true = selecting
resumed_inline false = crashed

-- The listener goes on after a call of its own that returned; a panic, which nothing recovers, ends
-- its goroutine. A worker of the pool survives a panic.
abbrev pub resumed : (is_inline finished : Bool) → Phase → Phase
resumed true finished inline = resumed_inline finished
resumed _ finished p = p

abbrev outcome_of : Option ErrorView → Bool → WorkOutcome → WorkOutcome
unfolding record_work_failure
outcome_of none cause outcome = outcome
outcome_of (some e) cause outcome = record_work_failure e cause 0 outcome

-- The deferred part of `processObserved`.
unfoldable pub end_task :
    (place : ℕ)
    → Option Task
    → Time
    → (finished : Bool) → Option ErrorView
    → Bool
    → WorkOutcome
    → Listener
    → Listener
unfolding finish outcome_of
end_task place none now finished err cause outcome l = l
end_task place (some t) now finished err cause outcome l =
    let o = outcome_of err cause outcome in
    record l {
      running = drop_at place l.running;
      processed = t.command ∷ l.processed;
      phase = resumed t.is_inline finished l.phase;
      activity = finish t.slot now (not finished || o.failed) o.timed_out l.activity;
    }

unfoldable pub start : Phase → Listener → Listener
unfolding set_accepting
start not_started l = record l { phase = selecting; activity = set_accepting true l.activity }
start _ l = l

unfoldable pub take_if : Phase → Time → Bool → Listener → Listener
unfolding take_command
take_if selecting now accepted l = take_command now accepted l.queue l
take_if _ now accepted l = l

unfoldable pub leave_if : Phase → Listener → Listener
unfolding leave_loop
leave_if selecting l = leave_loop l
leave_if _ l = l

unfoldable pub begin_inline : Phase → Time → Listener → Listener
unfolding begin_task
begin_inline (refused c) now l = record (begin_task c true now l) { phase = inline }
begin_inline _ now l = l

unfoldable pub release : Phase → Listener → Listener
unfolding stopped
release releasing l = record l { phase = ended; activity = stopped l.activity }
release _ l = l

-- An event that is not enabled changes nothing.
unfoldable pub step : Event → Listener → Listener
unfolding start take_if leave_if begin_submitted begin_inline end_task release
step (offered c) l = if l.closed then l else record l { queue = l.queue ++ (c ∷ []) }
step queue_closed l = record l { closed = true }
step context_canceled l = record l { canceled = true }
step starts l = start l.phase l
step (takes now accepted) l = take_if l.phase now accepted l
step leaves l = leave_if l.phase l
step (task_begins place now) l = begin_submitted place (get_elem? l.submitted place) now l
step (inline_begins now) l = begin_inline l.phase now l
step (task_ends place now finished err cause outcome) l =
    end_task place (get_elem? l.running place) now finished err cause outcome l
step pool_released l = release l.phase l

unfoldable pub run : List Event → Listener → Listener
unfolding step
run [] l = l
run (e ∷ es) l = run es (step e l)
