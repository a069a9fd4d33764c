-- ===== src/Poller/Conservation.antt =====
-- No command of a batch is lost silently.
use tunnel_client.Base.{
  ◌+◌, ◌≤◌, ◌≡◌, refl, inl, inr, Bool, true, false, Option, none, some, List, [], ◌∷◌, arith,
  length, take, min, if◌then◌else◌, Bool-cases, ap, subst,
}
use tunnel_client.Health.{max_uint64}
use tunnel_client.Poller.{
  PolledCommand, is_typed, Observers, Turn, Batch, enqueue_with_backpressure, after_enqueue,
  deliver, count_typed, count_untyped, wait_for_queue, add_invalid, add_enqueued,
}

-- The commands of a batch that can be enqueued.
abbrev pub typed : List PolledCommand → List PolledCommand
typed [] = []
typed (c ∷ cs) = if is_typed c then c ∷ typed cs else typed cs

-- What has become of the commands, and what the queue's counter says.
pub record IsDelivered (cs : List PolledCommand) (o : Observers) (b : Batch) : Type 0 where
  pub in_order : b.enqueued ≡ take (length b.enqueued) (typed cs)
  pub counted : length b.enqueued + b.dropped_context_closed ≡ length (typed cs)
  pub conserved : length b.enqueued + b.dropped_invalid_type + b.dropped_context_closed ≡ length cs
  pub queue_counted :
      b.observers.queue.enqueued ≡ min (o.queue.enqueued + length b.enqueued) max_uint64

abbrev EnqueueCounts : Observers → Option (Bool × Observers × List Turn) → Type 0
EnqueueCounts o none = Unit {0}
EnqueueCounts o (some (true, p, ts)) = p.queue.enqueued ≡ min (o.queue.enqueued + 1) max_uint64
EnqueueCounts o (some (false, p, ts)) = p.queue.enqueued ≡ o.queue.enqueued

enqueue-EnqueueCounts :
    (ts : List Turn) (o : Observers)
    → o.queue.enqueued ≤ max_uint64
    → EnqueueCounts o (enqueue_with_backpressure ts o)
unfolding enqueue_with_backpressure
enqueue-EnqueueCounts [] o h = tt
enqueue-EnqueueCounts (t ∷ ts) o h =
    ground (arith, enqueue-EnqueueCounts ts (wait_for_queue t.now t.resumed_at o))

count_lem :
    (cs : List PolledCommand)
    → (count_typed cs ≡ length (typed cs)) × (count_untyped cs + length (typed cs) ≡ length cs)
count_lem [] = omega arith
count_lem (c ∷ cs) = ground (arith, count_lem cs)

-- The result of a delivery, where there is one, accounts for every command.
abbrev Delivers : List PolledCommand → Observers → Option Batch → Type 0
Delivers cs o none = Unit {0}
Delivers cs o (some b) = IsDelivered cs o b

add_invalid-Delivers :
    (c : PolledCommand) (cs : List PolledCommand) (o : Observers) (r : Option Batch)
    → is_typed c ≡ false
    → Delivers cs o r
    → Delivers (c ∷ cs) o (add_invalid r)
add_invalid-Delivers c cs o none e h = tt
add_invalid-Delivers c cs o (some b) e h = record {
  in_order = rw e h.in_order;
  counted = rw e h.counted;
  conserved = omega (arith, h.conserved);
  queue_counted = h.queue_counted;
}

add_enqueued-Delivers :
    (c : PolledCommand) (cs : List PolledCommand) (o p : Observers) (r : Option Batch)
    → is_typed c ≡ true
    → p.queue.enqueued ≡ min (o.queue.enqueued + 1) max_uint64
    → Delivers cs p r
    → Delivers (c ∷ cs) o (add_enqueued c r)
add_enqueued-Delivers c cs o p none e q h = tt
add_enqueued-Delivers c cs o p (some b) e q h = record {
  in_order = rw e (ap (λ l. c ∷ l) h.in_order);
  counted = rw e (omega (arith, h.counted));
  conserved = omega (arith, h.conserved);
  queue_counted = omega (arith, q, h.queue_counted);
}

after_enqueue-Delivers :
    (c : PolledCommand) (cs : List PolledCommand) (o : Observers)
    (rest : List Turn → Observers → Option Batch) (r : Option (Bool × Observers × List Turn))
    → is_typed c ≡ true
    → o.queue.enqueued ≤ max_uint64
    → EnqueueCounts o r
    → ((ts : List Turn) (p : Observers) → p.queue.enqueued ≤ max_uint64 → Delivers cs p (rest ts p))
    → Delivers (c ∷ cs) o (after_enqueue c cs rest r)
unfolding after_enqueue
after_enqueue-Delivers c cs o rest none e b q k = tt
after_enqueue-Delivers c cs o rest (some (true, p, ts)) e b q k =
    add_enqueued-Delivers c cs o p (rest ts p) e q (k ts p (omega (arith, q)))
after_enqueue-Delivers c cs o rest (some (false, p, ts)) e b q k = record {
  in_order = refl;
  counted = rw e (omega (arith, count_lem cs));
  conserved = omega (arith, count_lem cs);
  queue_counted = omega (arith, q, b);
}

deliver-Delivers :
    (cs : List PolledCommand) (ts : List Turn) (o : Observers)
    → o.queue.enqueued ≤ max_uint64
    → Delivers cs o (deliver cs ts o)
unfolding deliver
deliver-Delivers [] ts o b = ground arith
deliver-Delivers (c ∷ cs) ts o b = elim (Bool-cases (is_typed c)) [
  | inl e ↦ rw e (
      after_enqueue-Delivers c cs o (deliver cs) (enqueue_with_backpressure ts o) e b
        (enqueue-EnqueueCounts ts o b) (λ us p. deliver-Delivers cs us p))
  | inr e ↦ rw e (add_invalid-Delivers c cs o (deliver cs ts o) e (deliver-Delivers cs ts o b))
]

-- Of the commands of one poll, however many were asked for, those enqueued are the first typed
-- ones in their order; every other command is counted, as of unknown type or as dropped at
-- shutdown; and the queue's counter goes up by what was enqueued.
pub deliver-IsDelivered :
    (cs : List PolledCommand) (ts : List Turn) (o : Observers) (b : Batch)
    → o.queue.enqueued ≤ max_uint64
    → deliver cs ts o ≡ some b
    → IsDelivered cs o b
deliver-IsDelivered cs ts o b h e = subst (Delivers cs o) e (deliver-Delivers cs ts o h)
