-- ===== src/Cloudflared.antt =====
-- The optional cloudflared companion: `State` of pkg/cloudflared/runtime/state.go, and the token and
-- the environment of the child in pkg/cloudflared/runtime/supervisor.go. Texts are ASCII.
pub mod Environment
pub mod Supervisor
use tunnel_client.Base.{
  ℕ, Bool, true, false, not, ◌&&◌, ◌||◌, Option, none, some, List, [], ◌∷◌, ◌++◌, ◌==◌,
  if◌then◌else◌, Bytes, codes, bytes_eq, equal_fold, is_empty, trim_space, Time, zero_time, is_zero,
}
use tunnel_client.Health.{
  status_ok, degraded, unknown, disabled, ComponentSnapshot, cloudflared_details, timestamp,
}

pub record State : Type 0 where
  pub enabled : Bool
  pub ready : Bool
  pub reason : Bytes
  pub observed_at : Time

abbrev pub new_state : (enabled : Bool) → State
new_state enabled = record {
  enabled = enabled;
  ready = false;
  reason = if enabled then codes "cloudflared startup pending" else [];
  observed_at = zero_time;
}

unfoldable pub readiness : State → Bool × Bytes
unfolding trim_space
readiness s = if not s.enabled || s.ready then (true, []) else (
  false,
  (if is_empty (trim_space s.reason) then codes "cloudflared is not ready" else s.reason),
)

unfoldable pub set_ready : Time → State → State
set_ready now s = record s {
  observed_at = if not s.ready || is_zero s.observed_at then now else s.observed_at;
  ready = true;
  reason = [];
}

unfoldable pub set_not_ready : Time → Bytes → State → State
unfolding trim_space
set_not_ready now reason s = record s {
  observed_at = if s.ready || is_zero s.observed_at then now else s.observed_at;
  ready = false;
  reason = trim_space reason;
}

unfoldable pub snapshot : State → ComponentSnapshot
snapshot s =
    let details = cloudflared_details s.enabled s.ready in
    if not s.enabled
    then record {
      status = disabled;
      state = codes "disabled";
      reason_code = [];
      observed_at = none;
      limited = false;
      details = details;
    }
    else record {
      status = if s.ready then status_ok else (if is_zero s.observed_at then unknown else degraded);
      state =
          if s.ready
          then codes "ready"
          else (if is_zero s.observed_at then codes "pending" else codes "not_ready");
      reason_code = if s.ready || is_zero s.observed_at then [] else codes "companion_not_ready";
      observed_at = if is_zero s.observed_at then none else some s.observed_at;
      limited = false;
      details = details;
    }

-- What the fetcher of managed credentials answers: nothing, a token, or an error with the status
-- of its chain if it has one.
pub data Fetched : Type 0 where
  no_runtime : Fetched
  runtime : (token : Bytes) → Fetched
  fetch_failed : (status : Option ℕ) → Fetched

pub data TokenError : Type 0 where
  no_fetcher not_provisioned fetch_error no_token : TokenError

abbrev is_not_found : Option ℕ → Bool
is_not_found none = false
is_not_found (some status) = status == 404

pub data TokenResult : Type 0 where
  token_is : Bytes → TokenResult
  token_failed : TokenError → TokenResult

abbrev pub fetched_token : Option Fetched → TokenResult
fetched_token none = token_failed no_fetcher
fetched_token (some no_runtime) = token_failed no_token
fetched_token (some (runtime t)) =
    if is_empty (trim_space t) then token_failed no_token else token_is t
fetched_token (some (fetch_failed status)) =
    token_failed (if is_not_found status then not_provisioned else fetch_error)

unfoldable pub runtime_token :
    (configured : Bytes) → (managed : Bool) → Option Fetched → TokenResult
unfolding trim_space
runtime_token configured managed fetcher =
    if not (is_empty (trim_space configured))
    then token_is configured
    else (if not managed then token_is [] else fetched_token fetcher)

abbrev pub add_to_key : ℕ → Option (Bytes × Bytes) → Option (Bytes × Bytes)
add_to_key c none = none
add_to_key c (some (key, value)) = some (c ∷ key, value)

-- strings.Cut at `=`.
unfoldable pub cut_at_equals : Bytes → Option (Bytes × Bytes)
cut_at_equals [] = none
cut_at_equals (c ∷ s) =
    let rest = cut_at_equals s in if c == 61 then some ([], s) else add_to_key c rest

-- An entry that is replaced: the token's or the diagnostics', or one that repeats the token.
abbrev pub is_replaced : Bytes → Option (Bytes × Bytes) → Bool
is_replaced token none = false
is_replaced token (some (key, value)) =
    equal_fold key (codes "TUNNEL_TOKEN")
    || (equal_fold key (codes "TUNNEL_MANAGEMENT_DIAGNOSTICS")
        || (not (is_empty token) && bytes_eq value token))

unfoldable pub kept_entries : Bytes → List Bytes → List Bytes
unfolding cut_at_equals equal_fold bytes_eq
kept_entries token [] = []
kept_entries token (e ∷ es) =
    let rest = kept_entries token es in
    if is_replaced token (cut_at_equals e) then rest else e ∷ rest

unfoldable pub cloudflared_environment : List Bytes → Bytes → List Bytes
unfolding kept_entries
cloudflared_environment environ token =
    kept_entries token environ
    ++ ((codes "TUNNEL_TOKEN=" ++ token) ∷ (codes "TUNNEL_MANAGEMENT_DIAGNOSTICS=false" ∷ []))
