-- ===== src/Dispatcher/Forwarding/Ends.antt =====
-- When forwarding ends with one terminal post: `forwardResponses` of
-- pkg/dispatcher/internal/processor.go.
use tunnel_client.Base.{
  ℕ, ◌+◌, ◌≡◌, Bool, true, false, not, ◌&&◌, ◌||◌, Option, none, some, List, [], ◌∷◌, Bytes, arith,
  is_some,
}
use tunnel_client.Dispatcher.Failure.{TransportError}
use tunnel_client.Dispatcher.Forwarding.{
  event, Sent, Reading, read_error, nil_message, notification, response, other_message, Turn,
  Forwarded, usable, protocol_failure_error, post_terminal_error_response, forward_final, stop_at,
  forward_notification, pass, forward_responses,
}

-- How many posts end the command.
abbrev pub terminal_posts : List Sent → ℕ
terminal_posts [] = 0
terminal_posts ((event payload code, accepted) ∷ ps) = terminal_posts ps
terminal_posts (_ ∷ ps) = 1 + terminal_posts ps

-- An error that says nothing of a deadline or a cancellation, or that the connection is closed.
abbrev pub IsLoud : TransportError → Type 0
IsLoud e = ((e.is_connection_closed || e.is_eof) || not (e.is_deadline || e.is_canceled)) ≡ true

-- The server's messages end: with a response, an error that is not the expiry of the command, or
-- something that no server should send; a failure encodes, and so do all notifications before.
abbrev pub IsEnding : Reading → Turn → Type 0 → Type 0
IsEnding (read_error e) t rest = IsLoud e × (t.failure_encodes ≡ true)
IsEnding nil_message t rest = t.failure_encodes ≡ true
IsEnding (notification o) t rest = (is_some (usable o) ≡ true) × rest
IsEnding (response i o) t rest = t.failure_encodes ≡ true
IsEnding other_message t rest = t.failure_encodes ≡ true

abbrev pub Ends : List Turn → Type 0
Ends [] = ⊥
Ends (t ∷ ts) = IsEnding t.reading t (Ends ts)

-- One terminal post, and the loop is left.
abbrev pub IsFinished : Forwarded → Type 0
IsFinished f = (terminal_posts f.posts ≡ 1) × (f.ended ≡ true)

error_response-IsFinished :
    (e : TransportError) (t : Turn)
    → t.failure_encodes ≡ true
    → IsFinished (post_terminal_error_response e t)
unfolding post_terminal_error_response
error_response-IsFinished e t h = ground arith

stop_at-IsFinished :
    (e : TransportError) (t : Turn) → IsLoud e → t.failure_encodes ≡ true → IsFinished (stop_at e t)
unfolding stop_at
stop_at-IsFinished e t l h = ground (arith, error_response-IsFinished e t)

forward_final-IsFinished :
    (code request : ℕ) (i : Option ℕ) (o : Option Bytes) (t : Turn)
    → t.failure_encodes ≡ true
    → IsFinished (forward_final code request i o t)
unfolding forward_final
forward_final-IsFinished code request i none t h =
    error_response-IsFinished protocol_failure_error t h
forward_final-IsFinished code request i (some p) t h =
    ground (arith, error_response-IsFinished protocol_failure_error t h)

forward_notification-IsFinished :
    (code : ℕ) (o : Option Bytes) (accepted : Bool) (rest : Forwarded)
    → is_some o ≡ true
    → IsFinished rest
    → IsFinished (forward_notification code o accepted rest)
forward_notification-IsFinished code none accepted rest e h = cc
forward_notification-IsFinished code (some p) accepted rest e h = h

pass-IsFinished :
    (code request : ℕ) (enabled : Bool) (r : Reading) (t : Turn) (later : Type 0) (rest : Forwarded)
    → IsEnding r t later
    → (later → IsFinished rest)
    → IsFinished (pass code request enabled r t rest)
pass-IsFinished code request enabled (read_error e) t later rest h k =
    stop_at-IsFinished e t h.0 h.1
pass-IsFinished code request enabled nil_message t later rest h k =
    error_response-IsFinished protocol_failure_error t h
pass-IsFinished code request true (notification o) t later rest h k =
    forward_notification-IsFinished code (usable o) t.accepted rest h.0 (k h.1)
pass-IsFinished code request false (notification o) t later rest h k = k h.1
pass-IsFinished code request enabled (response i o) t later rest h k =
    forward_final-IsFinished code request i (usable o) t h
pass-IsFinished code request enabled other_message t later rest h k =
    error_response-IsFinished protocol_failure_error t h

pub forward_responses-IsFinished :
    (code request : ℕ) (enabled : Bool) (ts : List Turn)
    → Ends ts
    → IsFinished (forward_responses code request enabled ts)
unfolding forward_responses
forward_responses-IsFinished code request enabled [] h = elim h [ ]
forward_responses-IsFinished code request enabled (t ∷ ts) h =
    pass-IsFinished code request enabled t.reading t (Ends ts)
      (forward_responses code request (enabled && t.accepted) ts) h
      (λ k. forward_responses-IsFinished code request (enabled && t.accepted) ts k)
