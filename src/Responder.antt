-- ===== src/Responder.antt =====
-- Delivery of a response: `PostResponse` in
-- pkg/controlplane/internal/tunnel_service_client.go. The network, the timers and the backoff
-- library are the environment: attempt number n meets the exchange `env n`.
pub mod Attempts
pub mod Delivery
pub mod Accounting
use tunnel_client.Base.{
  ℕ, zero, suc, ◌+◌, Bool, true, false, not, ◌&&◌, ◌||◌, Option, none, some, List, [], ◌∷◌, ltb,
  ◌==◌, if◌then◌else◌, Bytes, is_empty, codes, Time, Duration,
}
use tunnel_client.ErrorView.{ErrorView, plain_error, health_failure}
use tunnel_client.Channel.{TunnelResponse, ResponseType, jsonrpc_notification, validate}
use tunnel_client.RetryAfter.{retry_delay}
use tunnel_client.Health.Delivery.{
  DeliveryHealth, Disposition, failed, canceled, accepted, already_fulfilled, begin, attempt,
  attempt_failed, finish,
}

abbrev pub default_response_retry_attempts : ℕ
default_response_retry_attempts = 3

unfoldable pub is_retryable_response_status : ℕ → Bool
is_retryable_response_status status =
    status == 408 || (status == 429 || (status == 502 || (status == 503 || status == 504)))

-- What one try comes to. `written` says whether the request had been written when it failed.
pub data Reply : Type 0 where
  not_replayed : Reply
  unreached : ErrorView → (written : Bool) → Reply
  answered : (status : ℕ) → (retry_after : Duration × Bool) → Reply

-- How a wait before a retry ends.
pub data WaitEnd : Type 0 where
  elapsed : WaitEnd
  interrupted : Option ErrorView → WaitEnd

pub record Exchange : Type 0 where
  pub reply : Reply
  pub backoff_delay : Duration
  pub wait_end : WaitEnd
  pub now : Time

pub data PostError : Type 0 where
  no_request_id no_response invalid_response no_channel not_encoded no_shard_token : PostError
  replay_failed : PostError
  post_failed : ErrorView → PostError
  unexpected_status : ℕ → PostError
  wait_ended : Option ErrorView → PostError
  exhausted : PostError

pub data PostResult : Type 0 where
  delivered : PostResult
  refused : PostError → PostResult

-- The error that the caller and the health component see.
abbrev pub view_of : PostError → ErrorView
view_of (post_failed e) = e
view_of (unexpected_status status) = record plain_error { api_status = some status }
view_of (wait_ended (some e)) = e
view_of _ = plain_error

-- The local variables of the call, the tries that reached the client, newest first, and the
-- waits between them.
pub record Posting : Type 0 where
  pub health : DeliveryHealth
  pub disposition : Disposition
  pub health_status : ℕ
  pub tries : List Reply
  pub waits : List Duration

-- `deliveryHealth.Attempt(attempt > 1)` and the try itself.
unfoldable pub start_try : ℕ → Reply → Posting → Posting
unfolding attempt
start_try n r p = record p { health = attempt (ltb 1 n) p.health; tries = r ∷ p.tries }

-- What the loop does after a try: return, or wait and go on.
pub data Decision : Type 0 where
  stop : PostResult → Posting → Decision
  again : Duration → Posting → Decision

-- The `switch` on the status of an answer. `last` is `attempt == attempts`.
unfoldable pub decide_status : Bool → Bool → Exchange → ℕ → Duration × Bool → Posting → Decision
unfolding is_retryable_response_status retry_delay attempt_failed
decide_status notification last e status (retry_after, has) p =
    if status == 200
    then stop delivered (record p { disposition = accepted; health_status = status })
    else if status == 404
    then stop delivered (record p { disposition = already_fulfilled; health_status = status })
    else let q = record p {
      health = attempt_failed e.now (codes "http_error") status p.health;
      health_status = status;
    } in
      if not (is_retryable_response_status status)
        || (last || (notification && not (status == 429)))
      then stop (refused (unexpected_status status)) q
      else again (retry_delay e.backoff_delay retry_after has) q

-- The branch for a try that got no answer.
unfoldable pub decide_failure : Bool → Bool → Exchange → ErrorView → Bool → Posting → Decision
unfolding attempt_failed
decide_failure notification last e view written p =
    let q = record p {
      health = attempt_failed e.now (health_failure view).0 (health_failure view).1 p.health;
      health_status = (health_failure view).1;
    } in
    if last || (notification && written)
    then stop (refused (post_failed view)) q
    else again e.backoff_delay q

unfoldable pub decide : Bool → Bool → ℕ → Exchange → Reply → Posting → Decision
unfolding start_try decide_status decide_failure
decide notification last n e not_replayed p = stop (refused replay_failed) p
decide notification last n e (unreached view written) p =
    decide_failure notification last e view written (start_try n (unreached view written) p)
decide notification last n e (answered status hint) p =
    decide_status notification last e status hint (start_try n (answered status hint) p)

unfoldable pub follow : WaitEnd → (Posting → PostResult × Posting) → Decision → PostResult × Posting
follow w next (stop result p) = (result, p)
follow elapsed next (again delay p) = next (record p { waits = delay ∷ p.waits })
follow (interrupted e) next (again delay p) = (refused (wait_ended e), p)

-- The loop, from attempt number `n` with `left` attempts left.
unfoldable pub post_loop : (ℕ → Exchange) → Bool → (left n : ℕ) → Posting → PostResult × Posting
unfolding follow decide
post_loop env notification zero n p = (refused exhausted, p)
post_loop env notification (suc left) n p =
    follow (env n).wait_end (post_loop env notification left (n + 1))
      (decide notification (left == 0) n (env n) (env n).reply p)

pub record PostRequest : Type 0 where
  pub request_id : Bytes
  pub response : Option TunnelResponse
  pub encodes : Bool
  pub shard_token : Option Bytes

abbrev pub is_notification : ResponseType → Bool
is_notification jsonrpc_notification = true
is_notification _ = false

abbrev pub or_default : ℕ → ℕ → ℕ
or_default n d = if n == 0 then d else n

abbrev has_token : Option Bytes → Bool
has_token none = false
has_token (some t) = not (is_empty t)

-- The guards of `PostResponse` in their order; `none` where all pass.
unfoldable pub refusal : PostRequest → Option TunnelResponse → Option PostError
unfolding validate
refusal r none = some (if is_empty r.request_id then no_request_id else no_response)
refusal r (some t) =
    if is_empty r.request_id
    then some no_request_id
    else if not (validate t)
    then some invalid_response
    else if is_empty t.channel
    then some no_channel
    else if not r.encodes
    then some not_encoded
    else (if not (has_token r.shard_token) then some no_shard_token else none)

-- Whether the request carries a notification.
abbrev pub notifies : Option TunnelResponse → Bool
notifies none = false
notifies (some t) = is_notification t.response_type

unfoldable pub post_checked :
    (ℕ → Exchange) → ℕ → Bool → Option PostError → Posting → PostResult × Posting
unfolding post_loop
post_checked env attempts notification (some e) p = (refused e, p)
post_checked env attempts notification none p =
    post_loop env notification (or_default attempts default_response_retry_attempts) 1 p

-- The deferred observation of the end.
unfoldable pub finish_posting : Time → PostResult × Posting → PostResult × Posting
unfolding health_failure finish
finish_posting now (delivered, p) =
    (delivered, record p { health = finish now p.disposition [] p.health_status p.health })
finish_posting now (refused e, p) =
    let disposition = if (view_of e).is_canceled then canceled else p.disposition in
    (
      refused e,
      record p {
        disposition = disposition;
        health = finish now disposition (health_failure (view_of e)).0 p.health_status p.health;
      },
    )

unfoldable pub post_response :
    (ℕ → Exchange) → ℕ → PostRequest → Time → DeliveryHealth → PostResult × Posting
unfolding begin post_checked refusal finish_posting
post_response env attempts r now health = finish_posting now (
    post_checked env attempts (notifies r.response) (refusal r r.response) (record {
      health = begin health;
      disposition = failed;
      health_status = 0;
      tries = [];
      waits = [];
    }))
