-- ===== src/Discovery.antt =====
-- Discovery of OAuth metadata: the failures of pkg/oauth/discovery_retry_policy.go and the passes of
-- pkg/oauth/discovery.go over the candidates. What each request comes to is the environment.
pub mod Policy
pub mod Passes
use tunnel_client.Base.{
  ℕ, Bool, true, false, not, ◌&&◌, ◌||◌, Option, none, some, List, [], ◌∷◌, ltb, leb, ◌==◌,
  if◌then◌else◌, zero, suc, ◌+◌, map,
}
use tunnel_client.ErrorView.{ErrorView, plain_error}

pub data FailureType : Type 0 where
  not_applicable timeout_only non_timeout retryable_response : FailureType

pub record ResponseFailures : Type 0 where
  pub retryable : Bool
  pub permanent : Bool
  pub timeout : Bool

abbrev pub no_failures : ResponseFailures
no_failures = record { retryable = false; permanent = false; timeout = false }

abbrev is_network_timeout : Option Bool → Bool
is_network_timeout (some true) = true
is_network_timeout _ = false

-- `classifyDiscoveryFailure` of an error that is there and was not classified before.
unfoldable pub classify_discovery_failure : ErrorView → FailureType
classify_discovery_failure err =
    if err.is_deadline || is_network_timeout err.network_timeout then timeout_only else non_timeout

abbrev pub is_timeout_type : FailureType → Bool
is_timeout_type timeout_only = true
is_timeout_type _ = false

unfoldable pub is_retryable_discovery_response_status : ℕ → Bool
is_retryable_discovery_response_status status = status == 429 || (leb 500 status && leb status 599)

-- The method `record`.
unfoldable pub record_failure :
    (status : ℕ) → ErrorView → (invalid_body : Bool) → ResponseFailures → ResponseFailures
unfolding classify_discovery_failure is_retryable_discovery_response_status
record_failure status err invalid_body f =
    if is_timeout_type (classify_discovery_failure err)
    then record f { timeout = true }
    else if status == 404
    then f
    else if is_retryable_discovery_response_status status
        || (invalid_body && (leb 200 status && ltb status 300))
    then record f { retryable = true }
    else record f { permanent = true }

unfoldable pub classify : FailureType → ResponseFailures → FailureType
classify fallback f =
    if f.permanent
    then non_timeout
    else (if f.retryable
        then retryable_response
        else (if f.timeout then timeout_only else fallback))

-- `withDiscoveryFailureType`.
abbrev pub with_discovery_failure_type : FailureType → FailureType
with_discovery_failure_type not_applicable = non_timeout
with_discovery_failure_type t = t

-- The body of an answer: it breaks off, exceeds the limit, is empty, or is read, with metadata that
-- are valid or not.
pub data Body : Type 0 where
  unread : ErrorView → Body
  oversized empty invalid valid : Body

-- What a request to a candidate comes to.
pub data Fetch : Type 0 where
  unbuilt : ErrorView → Fetch
  unanswered : ErrorView → Fetch
  answered : (status : ℕ) → Body → Fetch

pub data PassResult : Type 0 where
  selected : (candidate : ℕ) → (status : ℕ) → PassResult
  failed : FailureType → PassResult

-- 404 and server errors fall back to the next candidate, if there is one.
abbrev pub falls_back : ℕ → Bool → Bool
falls_back status more = (status == 404 || leb 500 status) && more

abbrev pub worsen : ErrorView → FailureType → FailureType
worsen err t = if is_timeout_type (classify_discovery_failure err) then t else non_timeout

-- The variables of the loop.
pub record Pass : Type 0 where
  pub failure_type : FailureType
  pub failures : ResponseFailures

abbrev pub start_pass : Pass
start_pass = record { failure_type = timeout_only; failures = no_failures }

pub data Visit : Type 0 where
  goes_on : Pass → Visit
  ends : PassResult → Visit

-- One candidate, number `i`, with more of them behind it or not.
unfoldable pub visit_body : ℕ → Bool → ℕ → Body → Pass → Visit
unfolding record_failure classify classify_discovery_failure
visit_body i more status (unread err) p =
    let q : Pass = record {
      failure_type = worsen err p.failure_type;
      failures = record_failure status err true p.failures;
    } in
    if falls_back status more then goes_on q else ends (failed (classify q.failure_type q.failures))
visit_body i more status oversized p =
    let f = record_failure status plain_error false p.failures in
    if falls_back status more
    then goes_on (record { failure_type = non_timeout; failures = f })
    else ends (failed (classify not_applicable f))
visit_body i more status empty p =
    let f = record_failure status plain_error true p.failures in
    if falls_back status more
    then goes_on (record { failure_type = non_timeout; failures = f })
    else ends (failed (classify not_applicable f))
visit_body i more status invalid p =
    if falls_back status more
    then goes_on (record {
      failure_type = non_timeout;
      failures = record_failure status plain_error false p.failures;
    })
    else ends (failed (classify not_applicable (record_failure status plain_error true p.failures)))
visit_body i more status valid p =
    if falls_back status more
    then goes_on (record {
      failure_type = non_timeout;
      failures = record_failure status plain_error false p.failures;
    })
    else ends (selected i status)

unfoldable pub visit : ℕ → Bool → Fetch → Pass → Visit
unfolding visit_body record_failure classify_discovery_failure
visit i more (unbuilt err) p =
    goes_on
      (record { failure_type = non_timeout; failures = record_failure 0 err false p.failures })
visit i more (unanswered err) p = goes_on (record {
  failure_type = worsen err p.failure_type;
  failures = record_failure 0 err false p.failures;
})
visit i more (answered status body) p = visit_body i more status body p

abbrev pub is_more : List Fetch → Bool
is_more [] = false
is_more (f ∷ fs) = true

abbrev pub visit_next : (Pass → PassResult) → Visit → PassResult
visit_next next (goes_on q) = next q
visit_next next (ends r) = r

-- `runOAuthMetadataDiscoveryPass`, from candidate number `i`.
unfoldable pub run_pass : ℕ → List Fetch → Pass → PassResult
unfolding visit classify
run_pass i [] p = failed (classify p.failure_type p.failures)
run_pass i (f ∷ fs) p = visit_next (run_pass (i + 1) fs) (visit i (is_more fs) f p)

-- One try of a request: an answer or an error.
pub data Try : Type 0 where
  reply : (status : ℕ) → Body → Try
  error : ErrorView → Try

abbrev pub request_retry_count : ℕ
request_retry_count = 3

-- `doWithRetryForTimeout`: the last error stands for an answer that never comes.
unfoldable pub do_with_retry : (left : ℕ) → (ℕ → Try) → ℕ → ErrorView → Fetch
unfolding classify_discovery_failure
do_with_retry zero tries n last = unanswered last
do_with_retry (suc left) tries n last = elim (tries n) [
  | reply status body ↦ answered status body
  | error err ↦
      if is_timeout_type (classify_discovery_failure err)
      then do_with_retry left tries (n + 1) err
      else unanswered err
]

-- A candidate in the pass with retries.
pub data Retried : Type 0 where
  never_built : ErrorView → Retried
  tried : (ℕ → Try) → Retried

abbrev pub retried_fetch : Retried → Fetch
retried_fetch (never_built err) = unbuilt err
retried_fetch (tried tries) = do_with_retry request_retry_count tries 0 plain_error

pub data Metadata : Type 0 where
  found : (candidate : ℕ) → (status : ℕ) → Metadata
  no_urls : Metadata
  metadata_failed : FailureType → Metadata

abbrev pub ended : PassResult → Metadata
ended (selected i status) = found i status
ended (failed t) = metadata_failed (with_discovery_failure_type t)

abbrev pub retries_after : PassResult → Bool
retries_after (selected i status) = false
retries_after (failed t) = is_timeout_type t

-- `FetchOAuthMetadata`: a pass, and a second one with retries if the first only timed out.
unfoldable pub fetch_oauth_metadata : List Fetch → List Retried → Metadata
unfolding run_pass do_with_retry
fetch_oauth_metadata [] second = no_urls
fetch_oauth_metadata (f ∷ first) second =
    let result = run_pass 0 (f ∷ first) start_pass in
    let again = run_pass 0 (map retried_fetch second) start_pass in
    ended (if retries_after result then again else result)
