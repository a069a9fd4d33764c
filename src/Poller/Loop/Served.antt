-- ===== src/Poller/Loop/Served.antt =====
-- What a run of the loop hands to the queue, and how it waits after a failure.
use tunnel_client.Base.{
  ℕ, ◌≤◌, ◌<◌, ◌≡◌, refl, Bool, true, Option, none, some, List, [], ◌∷◌, ◌++◌, arith, ◌==◌, All,
  if◌then◌else◌, Duration, is_some,
}
use tunnel_client.ErrorView.{ErrorView}
use tunnel_client.RetryAfter.{retry_delay}
use tunnel_client.Poller.{PolledCommand, Batch, deliver, poll_limit, available_slots}
use tunnel_client.Poller.Conservation.{typed}
use tunnel_client.Poller.Progress.{IsRunning, EnqueuesAll, deliver-EnqueuesAll}
use tunnel_client.Health.Poll
use tunnel_client.Poller.Loop.{
  recover, set_poll, Fetched, fetched, fetch_failed, Pass, Poller, PassResult, goes_on, stops,
  waits, after_batch, poll_failed, polled, pass, Ran, run, run_next,
}

abbrev pub answered : Fetched → List PolledCommand
answered (fetched cs) = typed cs
answered (fetch_failed view hint) = []

-- The typed commands of the polls that succeed.
abbrev pub served : List Pass → List PolledCommand
served [] = []
served (i ∷ is) =
    (if available_slots i.capacity i.queued == 0 then [] else answered i.answer) ++ served is

abbrev Serves : {B : Type 0} → List PolledCommand → PassResult B → Type 0
Serves cs (goes_on q) = q.enqueued ≡ cs
Serves cs (stops q) = Unit {0}
Serves cs waits = Unit {0}

after_batch-Serves :
    {B : Type 0} (p : Poller B) (limit : ℕ) (cs : List PolledCommand) (b : Option Batch)
    → EnqueuesAll cs b
    → Serves (typed cs) (after_batch p limit b)
unfolding after_batch
after_batch-Serves p limit cs none h = tt
after_batch-Serves p limit cs (some b) h = h

module _ {B : Type 0} (draw : B → Duration × B) (reset : B → B) where
  poll_failed-Serves :
      (i : Pass) (limit : ℕ) (view : ErrorView) (hint : Duration × Bool) (p : Poller B)
      → Serves [] (poll_failed draw reset i limit view hint p)
  unfolding poll_failed
  poll_failed-Serves i limit view hint p = ground arith

  polled-Serves :
      (i : Pass) (limit : ℕ) (a : Fetched) (p : Poller B)
      → All IsRunning i.turns
      → Serves (answered a) (polled draw reset i limit a p)
  unfolding polled
  polled-Serves i limit (fetch_failed view hint) p h = poll_failed-Serves i limit view hint p
  polled-Serves i limit (fetched cs) p h =
      after_batch-Serves (recover reset i.finished p) limit cs
        (deliver cs i.turns (recover reset i.finished p).observers)
        (deliver-EnqueuesAll cs i.turns (recover reset i.finished p).observers h)

  pass-Serves :
      (i : Pass) (p : Poller B)
      → All IsRunning i.turns
      → Serves
          (if available_slots i.capacity i.queued == 0 then [] else answered i.answer)
          (pass draw reset i p)
  unfolding pass
  pass-Serves i p h =
      let q : Poller B = record p {
        observers = set_poll (Poll.start_attempt i.started p.observers.poll) p.observers;
      } in
      ground
        (arith, polled-Serves i (poll_limit (available_slots i.capacity i.queued)) i.answer q h)

  run_next-Serves :
      (next : Poller B → Ran draw reset) (i : Pass) (p : Poller B) (r : PassResult B)
      (cs ds : List PolledCommand)
      → Serves cs r
      → ((q : Poller B) → (next q).running ≡ true → (next q).ran_enqueued ≡ ds)
      → (run_next draw reset next i.finished p r).running ≡ true
      → (run_next draw reset next i.finished p r).ran_enqueued ≡ cs ++ ds
  unfolding run_next
  run_next-Serves next i p (goes_on q) cs ds h k e = rw (h, k q.poller e)
  run_next-Serves next i p (stops q) cs ds h k e = cc
  run_next-Serves next i p waits cs ds h k e = cc

  -- If no command's wait for room meets a shutdown, and the run still goes on after its passes, it
  -- has handed to the queue exactly the typed commands of the polls that succeed, each once and
  -- in the order in which they were polled, whatever failures, waits and retries lie between.
  pub run-Serves :
      (is : List Pass) (p : Poller B)
      → All (λ i. All IsRunning i.turns) is
      → (run draw reset is p).running ≡ true
      → (run draw reset is p).ran_enqueued ≡ served is
  unfolding run
  run-Serves [] p h e = refl
  run-Serves (i ∷ is) p h e =
      run_next-Serves (run draw reset is) i p (pass draw reset i p)
        (if available_slots i.capacity i.queued == 0 then [] else answered i.answer) (served is)
        (pass-Serves i p h.0) (λ q. run-Serves is q h.1) e

  -- A wait of at least what the backoff draws and what the server asks for, and never none.
  abbrev pub WaitsFor : B → ErrorView → Duration × Bool → Option Duration → Type 0
  WaitsFor b view hint none = ⊥
  WaitsFor b view hint (some w) =
      (0 < w) × ((draw b).0 ≤ w) × (is_some view.api_status ≡ true → hint.1 ≡ true → hint.0 ≤ w)

  abbrev pub Waits : B → ErrorView → Duration × Bool → PassResult B → Type 0
  Waits b view hint (goes_on q) =
      WaitsFor b view hint q.retry_wait × (q.enqueued ≡ []) × (q.poller.backoff ≡ (draw b).1)
  Waits b view hint (stops q) = q.enqueued ≡ []
  Waits b view hint waits = ⊥

  -- A poll that fails enqueues nothing, and where the loop goes on it first waits: for some time,
  -- for at least what the backoff draws, and for at least what the server's hint asks for if the
  -- failure is a status error with a hint; the backoff moves on.
  pub poll_failed-Waits :
      (i : Pass) (limit : ℕ) (view : ErrorView) (hint : Duration × Bool) (p : Poller B)
      → Waits p.backoff view hint (poll_failed draw reset i limit view hint p)
  unfolding poll_failed retry_delay
  poll_failed-Waits i limit view hint p = ground arith
