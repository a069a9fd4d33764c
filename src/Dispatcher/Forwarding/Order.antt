-- ===== src/Dispatcher/Forwarding/Order.antt =====
-- The order of the posts for one request: `forwardResponses` of pkg/dispatcher/internal/processor.go.
use tunnel_client.Base.{
  ℕ, ◌≡◌, refl, Bool, true, false, ◌&&◌, Option, none, some, List, [], ◌∷◌, Bytes, arith,
}
use tunnel_client.Dispatcher.Failure.{TransportError}
use tunnel_client.Dispatcher.Forwarding.{
  event, Sent, Reading, read_error, nil_message, notification, response, other_message, Turn,
  Forwarded, usable, protocol_failure_error, post_terminal_error_response, forward_final, stop_at,
  forward_notification, pass, forward_responses,
}

-- Events first, none behind one that was not accepted; then at most one post that ends the command,
-- and nothing behind it.
abbrev pub IsOrdered : (enabled : Bool) → List Sent → Type 0
IsOrdered enabled [] = Unit {0}
IsOrdered enabled ((event payload code, accepted) ∷ ps) =
    (enabled ≡ true) × IsOrdered (enabled && accepted) ps
IsOrdered enabled (_ ∷ ps) = ps ≡ []

error_response-IsOrdered :
    (enabled : Bool) (e : TransportError) (t : Turn)
    → IsOrdered enabled (post_terminal_error_response e t).posts
unfolding post_terminal_error_response
error_response-IsOrdered enabled e t = ground arith

stop_at-IsOrdered :
    (enabled : Bool) (e : TransportError) (t : Turn) → IsOrdered enabled (stop_at e t).posts
unfolding stop_at
stop_at-IsOrdered enabled e t = ground (arith, error_response-IsOrdered enabled e t)

forward_final-IsOrdered :
    (enabled : Bool) (code request : ℕ) (i : Option ℕ) (o : Option Bytes) (t : Turn)
    → IsOrdered enabled (forward_final code request i o t).posts
unfolding forward_final
forward_final-IsOrdered enabled code request i none t =
    error_response-IsOrdered enabled protocol_failure_error t
forward_final-IsOrdered enabled code request i (some p) t =
    ground (arith, error_response-IsOrdered enabled protocol_failure_error t)

forward_notification-IsOrdered :
    (code : ℕ) (o : Option Bytes) (accepted : Bool) (rest : Forwarded)
    → IsOrdered accepted rest.posts
    → IsOrdered true (forward_notification code o accepted rest).posts
forward_notification-IsOrdered code none accepted rest h = tt
forward_notification-IsOrdered code (some p) accepted rest h = (refl, h)

pass-IsOrdered :
    (code request : ℕ) (enabled : Bool) (r : Reading) (t : Turn) (rest : Forwarded)
    → IsOrdered (enabled && t.accepted) rest.posts
    → IsOrdered enabled (pass code request enabled r t rest).posts
pass-IsOrdered code request enabled (read_error e) t rest h = stop_at-IsOrdered enabled e t
pass-IsOrdered code request enabled nil_message t rest h =
    error_response-IsOrdered enabled protocol_failure_error t
pass-IsOrdered code request true (notification o) t rest h =
    forward_notification-IsOrdered code (usable o) t.accepted rest h
pass-IsOrdered code request false (notification o) t rest h = h
pass-IsOrdered code request enabled (response i o) t rest h =
    forward_final-IsOrdered enabled code request i (usable o) t
pass-IsOrdered code request enabled other_message t rest h =
    error_response-IsOrdered enabled protocol_failure_error t

pub forward_responses-IsOrdered :
    (code request : ℕ) (enabled : Bool) (ts : List Turn)
    → IsOrdered enabled (forward_responses code request enabled ts).posts
unfolding forward_responses
forward_responses-IsOrdered code request enabled [] = tt
forward_responses-IsOrdered code request enabled (t ∷ ts) =
    pass-IsOrdered code request enabled t.reading t
      (forward_responses code request (enabled && t.accepted) ts)
      (forward_responses-IsOrdered code request (enabled && t.accepted) ts)
