-- ===== src/Dispatcher/Listener/Conserved.antt =====
-- No command is lost or processed twice: pkg/dispatcher/internal/queue_listener.go.
use tunnel_client.Base.{
  ◌≡◌, refl, ap, ◌∙◌, ℕ, ◌+◌, Bool, true, false, not, ◌&&◌, ◌||◌, Option, List, [], ◌∷◌, ◌++◌, ◌==◌,
  if◌then◌else◌, arith,
}
use tunnel_client.Dispatcher.Listener.{
  ended, Listener, new_listener, Event, offered, queue_closed, context_canceled, starts, takes,
  leaves, task_begins, inline_begins, task_ends, pool_released, is_empty_queue, step, run,
}
use tunnel_client.Dispatcher.Listener.Moved.{
  one_if, occurrences, total, occurrences-append, is_left, is_past, start-IsMoved, take_if-IsMoved,
  leave_if-IsMoved, begin_submitted-IsMoved, begin_inline-IsMoved, end_task-IsMoved,
  release-IsMoved,
}

-- How often the command was put into the queue before it was closed.
abbrev pub offers : (closed : Bool) → ℕ → List Event → ℕ
offers closed c [] = 0
offers closed c (offered d ∷ es) = (if closed then 0 else one_if (c == d)) + offers closed c es
offers closed c (queue_closed ∷ es) = offers true c es
offers closed c (context_canceled ∷ es) = offers closed c es
offers closed c (starts ∷ es) = offers closed c es
offers closed c (takes now accepted ∷ es) = offers closed c es
offers closed c (leaves ∷ es) = offers closed c es
offers closed c (task_begins place now ∷ es) = offers closed c es
offers closed c (inline_begins now ∷ es) = offers closed c es
offers closed c (task_ends place now finished err cause outcome ∷ es) = offers closed c es
offers closed c (pool_released ∷ es) = offers closed c es

-- What one event does to the number of each command, to the end of the queue, and to the loop.
abbrev IsStep : Event → Listener → Listener → Type 0
IsStep e l l' =
    ((c : ℕ) (es : List Event)
      → total c l' + offers l'.closed c es ≡ total c l + offers l.closed c (e ∷ es))
    × (is_left l ≡ true → is_left l' ≡ true)

still_left :
    (p k c q q' : Bool) → c ≡ false → (p || (k || (c && q))) ≡ true → (p || (k || (c && q'))) ≡ true
still_left p k c q q' e h = ground arith

left_closed : (p k c q : Bool) → (p || (k || (c && q))) ≡ true → (p || (k || q)) ≡ true
left_closed p k c q h = ground arith

left_canceled : (p k q : Bool) → (p || (k || q)) ≡ true → (p || true) ≡ true
left_canceled p k q h = ground arith

offered_if :
    (b : Bool) (d : ℕ) (l : Listener)
    → l.closed ≡ b
    → ((c : ℕ) (es : List Event)
        → total c (if b then l else record l { queue = l.queue ++ (d ∷ []) })
            + offers (if b then l else record l { queue = l.queue ++ (d ∷ []) }).closed c es
          ≡ total c l + ((if b then 0 else one_if (c == d)) + offers l.closed c es))
      × (is_left l ≡ true
          → is_left (if b then l else record l { queue = l.queue ++ (d ∷ []) }) ≡ true)
offered_if true d l e = (λ c es. omega arith, λ h. h)
offered_if false d l e = (
  λ c es. omega (arith, occurrences-append c l.queue (d ∷ [])),
  still_left (not (is_past l.phase)) l.canceled l.closed (is_empty_queue l.queue) _ e,
)

moved_lem : (t t' o o' : ℕ) → t' ≡ t → o' ≡ o → t' + o' ≡ t + o
moved_lem t t' o o' h g = omega arith

step-IsStep : (e : Event) (l : Listener) → IsStep e l (step e l)
unfolding step
step-IsStep (offered d) l = offered_if l.closed d l refl
step-IsStep queue_closed l =
    (λ c es. refl, left_closed (not (is_past l.phase)) l.canceled l.closed (is_empty_queue l.queue))
step-IsStep context_canceled l = (
  λ c es. refl,
  left_canceled (not (is_past l.phase)) l.canceled (l.closed && is_empty_queue l.queue),
)
step-IsStep starts l =
    let m = start-IsMoved l.phase l refl in
    (λ c es. moved_lem _ _ _ _ (m.0 c) (ap (λ b. offers b c es) m.1), m.2)
step-IsStep (takes now accepted) l =
    let m = take_if-IsMoved l.phase now accepted l refl in
    (λ c es. moved_lem _ _ _ _ (m.0 c) (ap (λ b. offers b c es) m.1), m.2)
step-IsStep leaves l =
    let m = leave_if-IsMoved l.phase l refl in
    (λ c es. moved_lem _ _ _ _ (m.0 c) (ap (λ b. offers b c es) m.1), m.2)
step-IsStep (task_begins place now) l =
    let m = begin_submitted-IsMoved place _ now l refl in
    (λ c es. moved_lem _ _ _ _ (m.0 c) (ap (λ b. offers b c es) m.1), m.2)
step-IsStep (inline_begins now) l =
    let m = begin_inline-IsMoved l.phase now l refl in
    (λ c es. moved_lem _ _ _ _ (m.0 c) (ap (λ b. offers b c es) m.1), m.2)
step-IsStep (task_ends place now finished err cause outcome) l =
    let m = end_task-IsMoved place _ now finished err cause outcome l refl in
    (λ c es. moved_lem _ _ _ _ (m.0 c) (ap (λ b. offers b c es) m.1), m.2)
step-IsStep pool_released l =
    let m = release-IsMoved l.phase l refl in
    (λ c es. moved_lem _ _ _ _ (m.0 c) (ap (λ b. offers b c es) m.1), m.2)

run-total :
    (es : List Event) (c : ℕ) (l : Listener) → total c (run es l) ≡ total c l + offers l.closed c es
unfolding run
run-total [] c l = omega arith
run-total (e ∷ es) c l = run-total es c (step e l) ∙ (step-IsStep e l).0 c es

run-is_left : (es : List Event) (l : Listener) → is_left l ≡ true → is_left (run es l) ≡ true
unfolding run
run-is_left [] l h = h
run-is_left (e ∷ es) l h = run-is_left es (step e l) ((step-IsStep e l).1 h)

-- However the poller, the listener and the workers take turns, each command is in as many places as
-- it was put into the queue before that was closed: waiting in the queue, refused by the pool and
-- about to be processed in line, a task of the pool, in a call of the processor, or processed. And
-- the loop is left, except by a panic, only with the context canceled or with the queue closed and
-- empty.
pub run-IsConserved :
    (pool_limit : Option ℕ) (es : List Event) (c : ℕ)
    → (total c (run es (new_listener pool_limit)) ≡ offers false c es)
      × (is_left (run es (new_listener pool_limit)) ≡ true)
run-IsConserved pool_limit es c = (
  omega (arith, run-total es c (new_listener pool_limit)),
  run-is_left es (new_listener pool_limit) refl,
)

never : (k c : Bool) → (false || (k || (c && false))) ≡ true → k ≡ false → ⊥
never k c h e = ground arith

drained_lem :
    (q : List ℕ) (k c : Bool)
    → (false || (k || (c && is_empty_queue q))) ≡ true
    → k ≡ false
    → q ≡ []
drained_lem [] k c h e = refl
drained_lem (d ∷ q) k c h e = absurd (never k c h e)

four_zeros : (n m : ℕ) → 0 + (0 + (0 + (0 + n))) ≡ m → n ≡ m
four_zeros n m h = omega arith

-- When the listener has ended without its context being canceled, and no worker has a task left,
-- each command has been processed as often as it was put into the queue: none was dropped, whether
-- or not the pool took it.
pub run-IsDrained :
    (pool_limit : Option ℕ) (es : List Event) (c : ℕ)
    → (run es (new_listener pool_limit)).phase ≡ ended
    → (run es (new_listener pool_limit)).canceled ≡ false
    → (run es (new_listener pool_limit)).submitted ≡ []
    → (run es (new_listener pool_limit)).running ≡ []
    → occurrences c (run es (new_listener pool_limit)).processed ≡ offers false c es
run-IsDrained pool_limit es c p k s r =
    let l = run es (new_listener pool_limit) in
    let a = run-IsConserved pool_limit es c in
    let q = drained_lem l.queue l.canceled l.closed (rw p at a.1) k in
    four_zeros _ _ (rw (q, p, s, r) at a.0)
