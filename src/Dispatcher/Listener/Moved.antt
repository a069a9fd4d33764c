-- ===== src/Dispatcher/Listener/Moved.antt =====
-- A section of the listener or of a worker moves commands and keeps their number: pkg/dispatcher/internal/queue_listener.go.
use tunnel_client.Base.{
  ◌≡◌, refl, ℕ, zero, suc, ◌+◌, Bool, true, false, not, ◌&&◌, ◌||◌, Option, none, some, List, [],
  ◌∷◌, ◌++◌, ◌==◌, if◌then◌else◌, Time, get_elem?, arith,
}
use tunnel_client.ErrorView.{ErrorView}
use tunnel_client.Activity.{WorkOutcome, set_accepting}
use tunnel_client.Dispatcher.Listener.{
  Phase, not_started, selecting, releasing, ended, crashed, refused, inline, Task, Listener,
  drop_at, take_command, is_empty_queue, leave_loop, begin_task, begin_submitted, resumed, end_task,
  start, take_if, leave_if, begin_inline, release,
}

abbrev pub one_if : Bool → ℕ
one_if true = 1
one_if false = 0

-- How often the command is in the list.
abbrev pub occurrences : ℕ → List ℕ → ℕ
occurrences c [] = 0
occurrences c (d ∷ ds) = one_if (c == d) + occurrences c ds

abbrev pub occurrences_running : ℕ → List Task → ℕ
occurrences_running c [] = 0
occurrences_running c (t ∷ ts) = one_if (c == t.command) + occurrences_running c ts

abbrev pub occurrences_refused : ℕ → Phase → ℕ
occurrences_refused c (refused d) = one_if (c == d)
occurrences_refused c not_started = 0
occurrences_refused c selecting = 0
occurrences_refused c releasing = 0
occurrences_refused c ended = 0
occurrences_refused c crashed = 0
occurrences_refused c inline = 0

-- Where the command is, all places together.
abbrev pub total : ℕ → Listener → ℕ
total c l =
    occurrences c l.queue
    + (occurrences_refused c l.phase
        + (occurrences c l.submitted
            + (occurrences_running c l.running + occurrences c l.processed)))

pub occurrences-append :
    (c : ℕ) (xs ys : List ℕ) → occurrences c (xs ++ ys) ≡ occurrences c xs + occurrences c ys
occurrences-append c [] ys = omega arith
occurrences-append c (x ∷ xs) ys = omega (arith, occurrences-append c xs ys)

same_head : (c x d n : ℕ) → some x ≡ some d → n + one_if (c == d) ≡ one_if (c == x) + n
same_head c x d n h = let e : x ≡ d = cc in rw e (omega arith)

same_task :
    (c : ℕ) (x t : Task) (n : ℕ)
    → some x ≡ some t
    → n + one_if (c == t.command) ≡ one_if (c == x.command) + n
same_task c x t n h = let e : x ≡ t = cc in rw e (omega arith)

occurrences-drop_at :
    (c d : ℕ) (k : ℕ) (xs : List ℕ)
    → get_elem? xs k ≡ some d
    → occurrences c (drop_at k xs) + one_if (c == d) ≡ occurrences c xs
occurrences-drop_at c d k [] h = cc
occurrences-drop_at c d zero (x ∷ xs) h = same_head c x d (occurrences c xs) h
occurrences-drop_at c d (suc k) (x ∷ xs) h = omega (arith, occurrences-drop_at c d k xs h)

occurrences_running-drop_at :
    (c : ℕ) (t : Task) (k : ℕ) (xs : List Task)
    → get_elem? xs k ≡ some t
    → occurrences_running c (drop_at k xs) + one_if (c == t.command) ≡ occurrences_running c xs
occurrences_running-drop_at c t k [] h = cc
occurrences_running-drop_at c t zero (x ∷ xs) h = same_task c x t (occurrences_running c xs) h
occurrences_running-drop_at c t (suc k) (x ∷ xs) h =
    omega (arith, occurrences_running-drop_at c t k xs h)

-- The loop runs, or was left with the context canceled or the queue closed and empty.
abbrev pub is_past : Phase → Bool
is_past releasing = true
is_past ended = true
is_past _ = false

-- Past the loop, the context is canceled or the queue is closed and empty.
abbrev pub is_left : Listener → Bool
is_left l = not (is_past l.phase) || (l.canceled || (l.closed && is_empty_queue l.queue))

-- A section that neither adds a command nor loses one.
abbrev pub IsMoved : Listener → Listener → Type 0
IsMoved l l' =
    ((c : ℕ) → total c l' ≡ total c l)
    × (l'.closed ≡ l.closed)
    × (is_left l ≡ true → is_left l' ≡ true)

pub IsMoved-same : (l : Listener) → IsMoved l l
IsMoved-same l = (λ c. refl, refl, λ h. h)

take_command-IsMoved :
    (now : Time) (accepted : Bool) (q : List ℕ) (l : Listener)
    → l.queue ≡ q
    → l.phase ≡ selecting
    → IsMoved l (take_command now accepted q l)
unfolding take_command
take_command-IsMoved now accepted [] l e p = IsMoved-same l
take_command-IsMoved now true (d ∷ ds) l e p =
    (λ c. rw (e, p) (grind (arith, occurrences-append c l.submitted (d ∷ []))), refl, λ h. refl)
take_command-IsMoved now false (d ∷ ds) l e p = (λ c. rw (e, p) (grind arith), refl, λ h. refl)

IsMoved-if :
    (b : Bool) (l l' : Listener) → (b ≡ true → IsMoved l l') → IsMoved l (if b then l' else l)
IsMoved-if true l l' h = h refl
IsMoved-if false l l' h = IsMoved-same l

leave_loop-IsMoved : (l : Listener) → l.phase ≡ selecting → IsMoved l (leave_loop l)
unfolding leave_loop set_accepting
leave_loop-IsMoved l p =
    IsMoved-if (l.canceled || (l.closed && is_empty_queue l.queue)) l _
      (λ a. (λ c. rw p refl, refl, λ h. a))

pub start-IsMoved : (p : Phase) (l : Listener) → l.phase ≡ p → IsMoved l (start p l)
unfolding start set_accepting
start-IsMoved not_started l p = (λ c. rw p refl, refl, λ h. refl)
start-IsMoved selecting l p = IsMoved-same l
start-IsMoved releasing l p = IsMoved-same l
start-IsMoved ended l p = IsMoved-same l
start-IsMoved crashed l p = IsMoved-same l
start-IsMoved (refused d) l p = IsMoved-same l
start-IsMoved inline l p = IsMoved-same l

pub take_if-IsMoved :
    (p : Phase) (now : Time) (accepted : Bool) (l : Listener)
    → l.phase ≡ p
    → IsMoved l (take_if p now accepted l)
unfolding take_if
take_if-IsMoved not_started now accepted l p = IsMoved-same l
take_if-IsMoved selecting now accepted l p = take_command-IsMoved now accepted l.queue l refl p
take_if-IsMoved releasing now accepted l p = IsMoved-same l
take_if-IsMoved ended now accepted l p = IsMoved-same l
take_if-IsMoved crashed now accepted l p = IsMoved-same l
take_if-IsMoved (refused d) now accepted l p = IsMoved-same l
take_if-IsMoved inline now accepted l p = IsMoved-same l

pub leave_if-IsMoved : (p : Phase) (l : Listener) → l.phase ≡ p → IsMoved l (leave_if p l)
unfolding leave_if
leave_if-IsMoved not_started l p = IsMoved-same l
leave_if-IsMoved selecting l p = leave_loop-IsMoved l p
leave_if-IsMoved releasing l p = IsMoved-same l
leave_if-IsMoved ended l p = IsMoved-same l
leave_if-IsMoved crashed l p = IsMoved-same l
leave_if-IsMoved (refused d) l p = IsMoved-same l
leave_if-IsMoved inline l p = IsMoved-same l

pub begin_submitted-IsMoved :
    (place : ℕ) (o : Option ℕ) (now : Time) (l : Listener)
    → get_elem? l.submitted place ≡ o
    → IsMoved l (begin_submitted place o now l)
unfolding begin_submitted begin_task
begin_submitted-IsMoved place none now l h = IsMoved-same l
begin_submitted-IsMoved place (some d) now l h =
    (λ c. omega (arith, occurrences-drop_at c d place l.submitted h), refl, λ g. g)

pub begin_inline-IsMoved :
    (p : Phase) (now : Time) (l : Listener) → l.phase ≡ p → IsMoved l (begin_inline p now l)
unfolding begin_inline begin_task
begin_inline-IsMoved not_started now l p = IsMoved-same l
begin_inline-IsMoved selecting now l p = IsMoved-same l
begin_inline-IsMoved releasing now l p = IsMoved-same l
begin_inline-IsMoved ended now l p = IsMoved-same l
begin_inline-IsMoved crashed now l p = IsMoved-same l
begin_inline-IsMoved (refused d) now l p = (λ c. rw p (omega arith), refl, λ h. refl)
begin_inline-IsMoved inline now l p = IsMoved-same l

-- Resuming the loop touches no command, and does not undo leaving it.
resumed_lem :
    (c : ℕ) (b finished : Bool) (p : Phase)
    → (occurrences_refused c (resumed b finished p) ≡ occurrences_refused c p)
      × (is_past (resumed b finished p) ≡ is_past p)
resumed_lem c true true inline = (refl, refl)
resumed_lem c true false inline = (refl, refl)
resumed_lem c true finished not_started = (refl, refl)
resumed_lem c true finished selecting = (refl, refl)
resumed_lem c true finished releasing = (refl, refl)
resumed_lem c true finished ended = (refl, refl)
resumed_lem c true finished crashed = (refl, refl)
resumed_lem c true finished (refused d) = (refl, refl)
resumed_lem c false finished p = (refl, refl)

pub end_task-IsMoved :
    (place : ℕ) (o : Option Task) (now : Time) (finished : Bool) (err : Option ErrorView)
    (cause : Bool) (outcome : WorkOutcome) (l : Listener)
    → get_elem? l.running place ≡ o
    → IsMoved l (end_task place o now finished err cause outcome l)
unfolding end_task
end_task-IsMoved place none now finished err cause outcome l h = IsMoved-same l
end_task-IsMoved place (some t) now finished err cause outcome l h = (
  λ c. omega (
    arith,
    occurrences_running-drop_at c t place l.running h,
    (resumed_lem c t.is_inline finished l.phase).0,
  ),
  refl,
  λ g. rw (resumed_lem 0 t.is_inline finished l.phase).1 g,
)

pub release-IsMoved : (p : Phase) (l : Listener) → l.phase ≡ p → IsMoved l (release p l)
unfolding release
release-IsMoved not_started l p = IsMoved-same l
release-IsMoved selecting l p = IsMoved-same l
release-IsMoved releasing l p = (λ c. rw p refl, refl, λ h. rw p at h)
release-IsMoved ended l p = IsMoved-same l
release-IsMoved crashed l p = IsMoved-same l
release-IsMoved (refused d) l p = IsMoved-same l
release-IsMoved inline l p = IsMoved-same l
