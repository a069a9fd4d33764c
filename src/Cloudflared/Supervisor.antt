-- ===== src/Cloudflared/Supervisor.antt =====
-- The supervisor's child, its waiter and its monitor: pkg/cloudflared/runtime/supervisor.go. An action
-- is one section under the lock, or one call of the state outside it; a list of actions is an
-- interleaving of `Start`, `Stop`, `waitForExit` and `monitorReadiness`.
pub mod Lifetime
use tunnel_client.Base.{
  ℕ, suc, Bool, true, false, not, ◌&&◌, ◌||◌, Option, none, some, List, [], ◌∷◌, ◌++◌,
  if◌then◌else◌, Bytes, codes, Time, is_some, is_empty,
}
use tunnel_client.Cloudflared.{
  State, set_ready, set_not_ready, runtime_token, TokenResult, token_is, token_failed,
}

-- The child: none, running, waited for with what `waitForExit` read under the lock, or gone with
-- its end published.
pub data Child : Type 0 where
  no_child running published : Child
  waited : (stopping : Bool) → (wait_err : Option Bytes) → Child

-- `monitoring` says that the monitor was started; also when it is cancelled it may have a probe
-- in flight. `failures` is the channel with one place; `sent` counts all that went into it.
pub record Supervisor : Type 0 where
  pub state : State
  pub child : Child
  pub stopping : Bool
  pub monitoring : Bool
  pub failures : Option Bytes
  pub sent : ℕ

pub data Action : Type 0 where
  -- `Start` up to the child's launch, with the reason if it fails before that and reports it.
  refused : Time → Bytes → Action
  launched : Action
  launch_failed : Time → Action
  -- `markReadyIfRunning` of `Start`, and of the monitor after a good probe.
  started_ready : Time → Action
  probed_ready : Time → Action
  probe_failed : Time → (erred : Bool) → Action
  stop_requested : Action
  waited_for : (wait_err : Option Bytes) → Action
  published_end : Time → Action
  received : Action

abbrev pub exit_message : Option Bytes → Bytes
exit_message none = codes "cloudflared process exited"
exit_message (some e) = codes "cloudflared process exited: " ++ e

abbrev pub has_exited : Child → Bool
has_exited no_child = false
has_exited running = false
has_exited published = true
has_exited (waited stopping e) = true

abbrev pub can_start : Child → Bool
can_start no_child = true
can_start _ = false

unfoldable pub mark_ready_if_running : Time → Supervisor → Supervisor
unfolding set_ready
mark_ready_if_running now s =
    if has_exited s.child then s else record s { state = set_ready now s.state }

abbrev pub wait_child : Bool → Option Bytes → Child → Child
wait_child stopping e running = waited stopping e
wait_child stopping e c = c

-- A failure that finds the channel full is dropped.
unfoldable pub send_failure : Bytes → Supervisor → Supervisor
send_failure message s =
    if is_some s.failures then s else record s { failures = some message; sent = suc s.sent }

unfoldable pub publish : Time → Child → Supervisor → Supervisor
unfolding set_not_ready send_failure
publish now (waited true e) s = record s {
  child = published;
  state = set_not_ready now (codes "cloudflared stopped") s.state;
}
publish now (waited false e) s =
    send_failure (exit_message e)
      (record s { child = published; state = set_not_ready now (exit_message e) s.state })
publish now c s = s

-- A bad probe of `monitorReadiness`.
abbrev pub monitor_fails : Time → (erred : Bool) → Supervisor → Supervisor
monitor_fails now erred s = record s {
  state =
      set_not_ready now
        (if erred
          then codes "cloudflared readiness probe failed"
          else codes "cloudflared is not ready")
        s.state;
}

-- `Stop` under the lock.
abbrev pub ask_to_stop : Supervisor → Supervisor
ask_to_stop s = record s { stopping = true }

-- An action that the code cannot take in a state changes nothing.
unfoldable pub step : Action → Supervisor → Supervisor
unfolding set_not_ready mark_ready_if_running publish
step (refused now reason) s = record s { state = set_not_ready now reason s.state }
step launched s = if can_start s.child then record s { child = running } else s
step (launch_failed now) s =
    if can_start s.child
    then record s { state = set_not_ready now (codes "cloudflared failed to start") s.state }
    else s
step (started_ready now) s =
    if can_start s.child
    then s
    else mark_ready_if_running now
        (record s { monitoring = s.monitoring || not (has_exited s.child) })
step (probed_ready now) s = if s.monitoring then mark_ready_if_running now s else s
step (probe_failed now erred) s = if s.monitoring then monitor_fails now erred s else s
step stop_requested s = ask_to_stop s
step (waited_for e) s = record s { child = wait_child s.stopping e s.child }
step (published_end now) s = publish now s.child s
step received s = record s { failures = none }

unfoldable pub run : List Action → Supervisor → Supervisor
unfolding step
run [] s = s
run (a ∷ rest) s = run rest (step a s)
