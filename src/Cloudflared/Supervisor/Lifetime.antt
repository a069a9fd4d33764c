-- ===== src/Cloudflared/Supervisor/Lifetime.antt =====
-- What holds while the child starts, runs, stops and ends.
use tunnel_client.Base.{
  ℕ, ◌≤◌, ◌≡◌, ◌≢◌, refl, ◌∙◌, sym, subst, Bytes, Bool, true, false, not, ◌||◌, Option, none, List,
  [], ◌∷◌, arith,
}
use tunnel_client.Cloudflared.{State, set_ready, set_not_ready, readiness, new_state}
use tunnel_client.Cloudflared.Supervisor.{
  Child, no_child, running, published, waited, Supervisor, Action, refused, launched, launch_failed,
  started_ready, probed_ready, probe_failed, stop_requested, waited_for, published_end, received,
  has_exited, mark_ready_if_running, send_failure, publish, step, run, wait_child,
}

-- What the child's phase says of the state, of the flag and of the failures sent.
abbrev pub Agrees : Child → Bool → Bool → ℕ → Type 0
Agrees no_child ready stopping sent = (ready ≡ false) × (sent ≡ 0)
Agrees running ready stopping sent = sent ≡ 0
Agrees (waited stopped e) ready stopping sent = (sent ≡ 0) × (stopped ≡ true → stopping ≡ true)
Agrees published ready stopping sent = (ready ≡ false) × (sent ≤ 1)

pub record IsSupervised (s : Supervisor) : Type 0 where
  pub agrees : Agrees s.child s.state.ready s.stopping s.sent
  pub empty_until_sent : s.sent ≡ 0 → s.failures ≡ none
  pub monitors_child : s.child ≡ no_child → s.monitoring ≡ false

mark-IsSupervised :
    (now : ℕ) (s : Supervisor)
    → s.child ≢ no_child
    → IsSupervised s
    → IsSupervised (mark_ready_if_running now s)
unfolding mark_ready_if_running set_ready
mark-IsSupervised now s n h = ground arith

publish-IsSupervised :
    (now : ℕ) (s : Supervisor) (c : Child)
    → s.child ≡ c
    → IsSupervised s
    → IsSupervised (publish now c s)
unfolding publish set_not_ready send_failure
publish-IsSupervised now s no_child e h = h
publish-IsSupervised now s running e h = h
publish-IsSupervised now s published e h = h
publish-IsSupervised now s (waited true w) e h = ground arith
publish-IsSupervised now s (waited false w) e h = ground arith

step-IsSupervised : (a : Action) (s : Supervisor) → IsSupervised s → IsSupervised (step a s)
unfolding step set_not_ready
step-IsSupervised (refused now reason) s h = ground arith
step-IsSupervised launched s h = ground arith
step-IsSupervised (launch_failed now) s h = ground arith
step-IsSupervised (started_ready now) s h = ground (
  arith,
  mark-IsSupervised now (record s { monitoring = s.monitoring || not (has_exited s.child) }),
)
step-IsSupervised (probed_ready now) s h = ground (arith, mark-IsSupervised now s)
step-IsSupervised (probe_failed now erred) s h = ground arith
step-IsSupervised stop_requested s h = ground arith
step-IsSupervised (waited_for e) s h = ground arith
step-IsSupervised (published_end now) s h = publish-IsSupervised now s s.child refl h
step-IsSupervised received s h = ground arith

run-IsSupervised : (l : List Action) (s : Supervisor) → IsSupervised s → IsSupervised (run l s)
unfolding run
run-IsSupervised [] s h = h
run-IsSupervised (a ∷ l) s h = run-IsSupervised l (step a s) (step-IsSupervised a s h)

-- Nothing changes whether the companion is enabled.
mark-enabled :
    (now : ℕ) (s : Supervisor) → (mark_ready_if_running now s).state.enabled ≡ s.state.enabled
unfolding mark_ready_if_running set_ready
mark-enabled now s = ground arith

publish-enabled :
    (now : ℕ) (c : Child) (s : Supervisor) → (publish now c s).state.enabled ≡ s.state.enabled
unfolding publish set_not_ready send_failure
publish-enabled now no_child s = refl
publish-enabled now running s = refl
publish-enabled now published s = refl
publish-enabled now (waited true w) s = refl
publish-enabled now (waited false w) s = ground arith

step-enabled : (a : Action) (s : Supervisor) → (step a s).state.enabled ≡ s.state.enabled
unfolding step set_not_ready
step-enabled (refused now reason) s = ground arith
step-enabled launched s = ground arith
step-enabled (launch_failed now) s = ground arith
step-enabled (started_ready now) s =
    ground
      (arith, mark-enabled now (record s { monitoring = s.monitoring || not (has_exited s.child) }))
step-enabled (probed_ready now) s = ground (arith, mark-enabled now s)
step-enabled (probe_failed now erred) s = ground arith
step-enabled stop_requested s = refl
step-enabled (waited_for e) s = refl
step-enabled (published_end now) s = publish-enabled now s.child s
step-enabled received s = refl

run-enabled : (l : List Action) (s : Supervisor) → (run l s).state.enabled ≡ s.state.enabled
unfolding run
run-enabled [] s = refl
run-enabled (a ∷ l) s = run-enabled l (step a s) ∙ step-enabled a s

abbrev pub new_supervisor : (enabled : Bool) → Supervisor
new_supervisor enabled = record {
  state = new_state enabled;
  child = no_child;
  stopping = false;
  monitoring = false;
  failures = none;
  sent = 0;
}

not_ready_lem : (s : State) → s.enabled ≡ true → s.ready ≡ false → (readiness s).0 ≡ false
unfolding readiness
not_ready_lem s e r = rw (e, r) refl

-- What holds of a supervisor with an enabled companion, by the phase of the child: the gate is closed
-- before the launch and after the end is published; at most one failure is sent, only then.
abbrev pub IsHonestIn : Child → Supervisor → Type 0
IsHonestIn no_child s = ((readiness s.state).0 ≡ false) × (s.sent ≡ 0) × (s.failures ≡ none)
IsHonestIn running s = (s.sent ≡ 0) × (s.failures ≡ none)
IsHonestIn (waited stopped e) s = (s.sent ≡ 0) × (s.failures ≡ none)
IsHonestIn published s = ((readiness s.state).0 ≡ false) × (s.sent ≤ 1)

abbrev pub IsHonest : Supervisor → Type 0
IsHonest s = IsHonestIn s.child s

honest_in :
    (c : Child) (s : Supervisor)
    → Agrees c s.state.ready s.stopping s.sent
    → (s.sent ≡ 0 → s.failures ≡ none)
    → s.state.enabled ≡ true
    → IsHonestIn c s
honest_in no_child s h f e = (not_ready_lem s.state e h.0, h.1, f h.1)
honest_in running s h f e = (h, f h)
honest_in (waited stopped w) s h f e = (h.0, f h.0)
honest_in published s h f e = (not_ready_lem s.state e h.0, h.1)

-- In every interleaving of the start of an enabled companion, its probes, its end and a stop, the
-- gate is closed before the child is launched and after its end is published, and at most one
-- failure is sent, only then.
pub run-IsHonest : (l : List Action) → IsHonest (run l (new_supervisor true))
run-IsHonest l =
    let h : IsSupervised (run l (new_supervisor true)) =
      run-IsSupervised l (new_supervisor true) (ground arith) in
    let e : (run l (new_supervisor true)).state.enabled ≡ true =
      run-enabled l (new_supervisor true) in
    honest_in (run l (new_supervisor true)).child (run l (new_supervisor true)) h.agrees
      h.empty_until_sent e

abbrev IsNoCrash : Child → Type 0
IsNoCrash (waited stopped e) = stopped ≡ true
IsNoCrash _ = Unit {0}

-- A stop before the child's end is noticed.
abbrev IsQuiet : Supervisor → Type 0
IsQuiet s = (s.stopping ≡ true) × (s.sent ≡ 0) × IsNoCrash s.child

mark-IsQuiet : (now : ℕ) (s : Supervisor) → IsQuiet s → IsQuiet (mark_ready_if_running now s)
unfolding mark_ready_if_running
mark-IsQuiet now s h = ground arith

publish-IsQuiet :
    (now : ℕ) (c : Child) (s : Supervisor) → IsNoCrash c → IsQuiet s → IsQuiet (publish now c s)
unfolding publish
publish-IsQuiet now no_child s k h = h
publish-IsQuiet now running s k h = h
publish-IsQuiet now published s k h = h
publish-IsQuiet now (waited true w) s k h = ground arith
publish-IsQuiet now (waited false w) s k h = cc

wait_child-IsNoCrash :
    (e : Option Bytes) (c : Child) → IsNoCrash c → IsNoCrash (wait_child true e c)
wait_child-IsNoCrash e no_child k = tt
wait_child-IsNoCrash e running k = refl
wait_child-IsNoCrash e published k = tt
wait_child-IsNoCrash e (waited b w) k = k

step-IsQuiet : (a : Action) (s : Supervisor) → IsQuiet s → IsQuiet (step a s)
unfolding step
step-IsQuiet (refused now reason) s h = ground arith
step-IsQuiet launched s h = ground arith
step-IsQuiet (launch_failed now) s h = ground arith
step-IsQuiet (started_ready now) s h =
    ground
      (arith, mark-IsQuiet now (record s { monitoring = s.monitoring || not (has_exited s.child) }))
step-IsQuiet (probed_ready now) s h = ground (arith, mark-IsQuiet now s)
step-IsQuiet (probe_failed now erred) s h = ground arith
step-IsQuiet stop_requested s h = (refl, h.1, h.2)
step-IsQuiet (waited_for e) s h = (
  h.0,
  h.1,
  subst (λ b. IsNoCrash (wait_child b e s.child)) (sym h.0) (wait_child-IsNoCrash e s.child h.2),
)
step-IsQuiet (published_end now) s h = publish-IsQuiet now s.child s h.2 h
step-IsQuiet received s h = h

run-IsQuiet : (l : List Action) (s : Supervisor) → IsQuiet s → IsQuiet (run l s)
unfolding run
run-IsQuiet [] s h = h
run-IsQuiet (a ∷ l) s h = run-IsQuiet l (step a s) (step-IsQuiet a s h)

stop-IsQuiet :
    (s : Supervisor) → IsSupervised s → has_exited s.child ≡ false → IsQuiet (step stop_requested s)
unfolding step
stop-IsQuiet s h e = ground arith

-- A stop that comes before the end of the child is noticed never ends in a failure, whatever
-- happens before and after it.
pub run-stop_requested :
    (enabled : Bool) (before later : List Action)
    → has_exited (run before (new_supervisor enabled)).child ≡ false
    → (run later (step stop_requested (run before (new_supervisor enabled)))).sent ≡ 0
run-stop_requested enabled before later e =
    let s : Supervisor = run before (new_supervisor enabled) in
    let h : IsSupervised s = run-IsSupervised before (new_supervisor enabled) (ground arith) in
    (run-IsQuiet later (step stop_requested s) (stop-IsQuiet s h e)).1
