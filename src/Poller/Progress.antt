-- ===== src/Poller/Progress.antt =====
-- A batch gets through.
use tunnel_client.Base.{
  ℕ, suc, ◌+◌, ◌≤◌, ◌<◌, ◌≡◌, refl, inl, inr, Bool, true, false, not, ◌||◌, Option, none, some,
  List, [], ◌∷◌, arith, length, All, if◌then◌else◌, Bool-cases, is_some,
}
use tunnel_client.Poller.{
  PolledCommand, is_typed, Observers, Turn, Batch, enqueue_with_backpressure, after_enqueue,
  deliver, wait_for_queue, add_invalid, add_enqueued,
}
use tunnel_client.Poller.Conservation.{typed}

-- A round that settles a command: the queue takes it, or the client shuts down.
abbrev pub settles : Turn → Bool
settles t = t.ctx_done || (t.takes || not t.wait_ok)

abbrev pub settling : List Turn → ℕ
settling [] = 0
settling (t ∷ ts) = (if settles t then 1 else 0) + settling ts

abbrev LeavesTurns : ℕ → Option (Bool × Observers × List Turn) → Type 0
LeavesTurns n none = ⊥
LeavesTurns n (some (b, o, ts)) = n ≤ settling ts + 1

enqueue-LeavesTurns :
    (ts : List Turn) (o : Observers)
    → 0 < settling ts
    → LeavesTurns (settling ts) (enqueue_with_backpressure ts o)
unfolding enqueue_with_backpressure
enqueue-LeavesTurns [] o h = absurd (omega arith)
enqueue-LeavesTurns (t ∷ ts) o h =
    ground (arith, enqueue-LeavesTurns ts (wait_for_queue t.now t.resumed_at o))

after_enqueue-IsSome :
    (c : PolledCommand) (cs : List PolledCommand) (rest : List Turn → Observers → Option Batch)
    (n : ℕ) (r : Option (Bool × Observers × List Turn))
    → LeavesTurns (suc n) r
    → ((ts : List Turn) (p : Observers) → n ≤ settling ts → is_some (rest ts p) ≡ true)
    → is_some (after_enqueue c cs rest r) ≡ true
unfolding after_enqueue
after_enqueue-IsSome c cs rest n none h k = elim h [ ]
after_enqueue-IsSome c cs rest n (some (true, p, ts)) h k =
    ground (arith, k ts p (omega (arith, h)))
after_enqueue-IsSome c cs rest n (some (false, p, ts)) h k = refl

LeavesTurns-mono :
    (m n : ℕ) (r : Option (Bool × Observers × List Turn))
    → n ≤ m
    → LeavesTurns m r
    → LeavesTurns n r
LeavesTurns-mono m n none l h = h
LeavesTurns-mono m n (some (b, o, ts)) l h = omega (arith, h)

-- A batch does not wait for ever: it ends as soon as as many rounds as it has typed commands
-- each find room in the queue or the client shutting down, whatever rounds of waiting lie between.
pub deliver_ends :
    (cs : List PolledCommand) (ts : List Turn) (o : Observers)
    → length (typed cs) ≤ settling ts
    → is_some (deliver cs ts o) ≡ true
unfolding deliver
deliver_ends [] ts o h = refl
deliver_ends (c ∷ cs) ts o h = elim (Bool-cases (is_typed c)) [
  | inl e ↦
      let m : suc (length (typed cs)) ≤ settling ts = (rw e at h) in
      rw e (
        after_enqueue-IsSome c cs (deliver cs) (length (typed cs)) (enqueue_with_backpressure ts o)
          (LeavesTurns-mono (settling ts) (suc (length (typed cs))) (enqueue_with_backpressure ts o)
            m (enqueue-LeavesTurns ts o (omega (arith, m))))
          (λ us p l. deliver_ends cs us p l))
  | inr e ↦
      let m : length (typed cs) ≤ settling ts = (rw e at h) in
      rw e (ground (arith, deliver_ends cs ts o m))
]

-- No round meets a shutdown.
abbrev pub IsRunning : Turn → Type 0
IsRunning t = (t.ctx_done ≡ false) × (t.wait_ok ≡ true)

abbrev Takes : Option (Bool × Observers × List Turn) → Type 0
Takes none = Unit {0}
Takes (some (b, o, ts)) = (b ≡ true) × All IsRunning ts

enqueue-Takes :
    (ts : List Turn) (o : Observers) → All IsRunning ts → Takes (enqueue_with_backpressure ts o)
unfolding enqueue_with_backpressure
enqueue-Takes [] o h = tt
enqueue-Takes (t ∷ ts) o h = ground (arith, enqueue-Takes ts (wait_for_queue t.now t.resumed_at o))

abbrev pub EnqueuesAll : List PolledCommand → Option Batch → Type 0
EnqueuesAll cs none = Unit {0}
EnqueuesAll cs (some b) = b.enqueued ≡ typed cs

add_enqueued-EnqueuesAll :
    (c : PolledCommand) (cs : List PolledCommand) (r : Option Batch)
    → is_typed c ≡ true
    → EnqueuesAll cs r
    → EnqueuesAll (c ∷ cs) (add_enqueued c r)
add_enqueued-EnqueuesAll c cs none e h = tt
add_enqueued-EnqueuesAll c cs (some b) e h = rw (e, h)

add_invalid-EnqueuesAll :
    (c : PolledCommand) (cs : List PolledCommand) (r : Option Batch)
    → is_typed c ≡ false
    → EnqueuesAll cs r
    → EnqueuesAll (c ∷ cs) (add_invalid r)
add_invalid-EnqueuesAll c cs none e h = tt
add_invalid-EnqueuesAll c cs (some b) e h = rw (e, h)

after_enqueue-EnqueuesAll :
    (c : PolledCommand) (cs : List PolledCommand) (rest : List Turn → Observers → Option Batch)
    (r : Option (Bool × Observers × List Turn))
    → is_typed c ≡ true
    → Takes r
    → ((ts : List Turn) (p : Observers) → All IsRunning ts → EnqueuesAll cs (rest ts p))
    → EnqueuesAll (c ∷ cs) (after_enqueue c cs rest r)
unfolding after_enqueue
after_enqueue-EnqueuesAll c cs rest none e t k = tt
after_enqueue-EnqueuesAll c cs rest (some (true, p, ts)) e t k =
    add_enqueued-EnqueuesAll c cs (rest ts p) e (k ts p t.1)
after_enqueue-EnqueuesAll c cs rest (some (false, p, ts)) e t k = cc

pub deliver-EnqueuesAll :
    (cs : List PolledCommand) (ts : List Turn) (o : Observers)
    → All IsRunning ts
    → EnqueuesAll cs (deliver cs ts o)
unfolding deliver
deliver-EnqueuesAll [] ts o h = refl
deliver-EnqueuesAll (c ∷ cs) ts o h = elim (Bool-cases (is_typed c)) [
  | inl e ↦ rw e (
      after_enqueue-EnqueuesAll c cs (deliver cs) (enqueue_with_backpressure ts o) e
        (enqueue-Takes ts o h) (λ us p. deliver-EnqueuesAll cs us p))
  | inr e ↦ rw e (add_invalid-EnqueuesAll c cs (deliver cs ts o) e (deliver-EnqueuesAll cs ts o h))
]
