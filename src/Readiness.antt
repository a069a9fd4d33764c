-- ===== src/Readiness.antt =====
-- Readiness of the client: `readinessStatus` of pkg/runtimehealth/health.go, over the results that
-- pkg/oauth/state.go and pkg/mcpclient/probe_state.go record once, and the optional failures of
-- pkg/oauth/discovery_failure.go. A text of the response is a constructor with its error.
pub mod Rule
use tunnel_client.Base.{
  ℕ, zero, suc, Bool, true, false, not, ◌&&◌, ◌||◌, Option, none, some, List, [], ◌∷◌, ◌==◌,
  if◌then◌else◌, Bytes, codes, bytes_eq, is_empty, Time, trim_space, to_lower,
}

-- An error: its text, and whether its chain has an HTTP status 401 of the probe, an exhausted
-- startup wait, or a probe that timed out.
pub record ProbeError : Type 0 where
  pub message : Bytes
  pub is_auth_required : Bool
  pub is_startup_wait_timeout : Bool
  pub is_timeout : Bool

pub record DiscoveryAttempt : Type 0 where
  pub tried : Bool
  pub selected : Bool
  pub status_code : ℕ

-- What a discovery records: the attempts of its result if it has one, its error's text if it
-- failed, and the URL of its probe if there was one.
pub record Discovery : Type 0 where
  pub attempts : Option (List DiscoveryAttempt)
  pub error : Option Bytes
  pub probe_url : Option Bytes

-- A state that is recorded once; `none` while it is pending.
abbrev pub Latch : Type 0 → Type 0
Latch A = Option A

-- `Set`, through its `sync.Once`.
unfoldable pub set : {A : Type 0} → A → Latch A → Latch A
set a none = some a
set a (some b) = some b

unfoldable pub starts_with : Bytes → Bytes → Bool
starts_with [] s = true
starts_with (c ∷ p) [] = false
starts_with (c ∷ p) (d ∷ s) = c == d && starts_with p s

-- strings.Contains.
unfoldable pub contains_text : Bytes → Bytes → Bool
unfolding starts_with
contains_text [] p = is_empty p
contains_text (c ∷ s) p = starts_with p (c ∷ s) || contains_text s p

unfoldable pub is_disabled_message : Bytes → Bool
unfolding contains_text trim_space to_lower
is_disabled_message message =
    let msg = to_lower (trim_space message) in
    contains_text msg (codes "oauth discovery disabled for transport")
    || contains_text msg (codes "oauth discovery server url is not configured")

-- The loop over the attempts, with `sawNotFound`.
unfoldable pub all_not_found : Bool → List DiscoveryAttempt → Bool
all_not_found saw [] = saw
all_not_found saw (a ∷ rest) =
    let later = all_not_found true rest in
    if not a.tried || a.selected
    then false
    else (if not (a.status_code == 404) then false else later)

abbrev pub has_url : Option Bytes → Bool
has_url none = false
has_url (some url) = not (is_empty url)

abbrev pub attempts_of : Option (List DiscoveryAttempt) → List DiscoveryAttempt
attempts_of none = []
attempts_of (some l) = l

abbrev pub is_optional_error : Discovery → Option Bytes → Bool
is_optional_error d none = false
is_optional_error d (some message) =
    if is_disabled_message message
    then true
    else (if has_url d.probe_url then false else all_not_found false (attempts_of d.attempts))

unfoldable pub is_optional_discovery_failure : Discovery → Bool
unfolding is_disabled_message all_not_found
is_optional_discovery_failure d = is_optional_error d d.error

-- The body of a response.
pub data Body : Type 0 where
  gate_reason : Bytes → Body
  discovery_pending probe_pending ready : Body
  discovery_failed : Bytes → Body
  requires_auth : Bytes → Body
  startup_wait_failed : Bytes → Body
  probe_timed_out : Bytes → Body
  probe_failed : Bytes → Body

-- The first gate that is not ready, with its reason; a nil gate is `none`.
unfoldable pub closed_gate : List (Option (Bool × Bytes)) → Option Bytes
unfolding trim_space
closed_gate [] = none
closed_gate (none ∷ gs) = closed_gate gs
closed_gate (some (is_ready, reason) ∷ gs) =
    let rest = closed_gate gs in
    if is_ready
    then rest
    else some
        (if is_empty (trim_space reason) then codes "runtime dependency is not ready" else reason)

abbrev pub error_text : Option Bytes → Bytes
error_text none = []
error_text (some m) = m

abbrev pub has_error : Option Bytes → Bool
has_error none = false
has_error (some m) = true

unfoldable pub discovery_block : Option (Latch Discovery) → Option Body
unfolding is_optional_discovery_failure trim_space
discovery_block none = none
discovery_block (some none) = some discovery_pending
discovery_block (some (some d)) =
    if has_error d.error && not (is_optional_discovery_failure d)
    then some (discovery_failed (trim_space (error_text d.error)))
    else none

unfoldable pub probe_status : Option (Latch (Option ProbeError)) → ℕ × Body
unfolding trim_space
probe_status none = (200, ready)
probe_status (some none) = (503, probe_pending)
probe_status (some (some none)) = (200, ready)
probe_status (some (some (some e))) =
    if e.is_auth_required
    then (200, requires_auth (trim_space e.message))
    else if e.is_startup_wait_timeout
    then (503, startup_wait_failed (trim_space e.message))
    else if e.is_timeout
    then (200, probe_timed_out (trim_space e.message))
    else (503, probe_failed (trim_space e.message))

abbrev pub blocked_by : Option Bytes → Option Body → ℕ × Body → ℕ × Body
blocked_by (some reason) d p = (503, gate_reason reason)
blocked_by none (some body) p = (503, body)
blocked_by none none p = p

unfoldable pub readiness_status :
    List (Option (Bool × Bytes))
    → Option (Latch Discovery)
    → Option (Latch (Option ProbeError))
    → ℕ × Body
unfolding closed_gate discovery_block probe_status
readiness_status gates discovery probe =
    blocked_by (closed_gate gates) (discovery_block discovery) (probe_status probe)
