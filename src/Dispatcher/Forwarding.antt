-- ===== src/Dispatcher/Forwarding.antt =====
-- How the messages that an MCP server sends back to a request become posts to the control plane:
-- `forwardResponses` of pkg/dispatcher/internal/processor.go. What is read, how it encodes and
-- whether a post is accepted is the environment, one turn for each pass of the loop.
pub mod Order
pub mod Ends
use tunnel_client.Base.{
  ℕ, Bool, true, false, not, ◌&&◌, ◌||◌, Option, none, some, List, [], ◌∷◌, ◌==◌, if◌then◌else◌,
  Bytes,
}
use tunnel_client.Dispatcher.Failure.{
  TransportError, no_error, TunnelFailure, classify_tunnel_failure,
}

-- What goes to the control plane for a command. All but an event end the command.
pub data Post : Type 0 where
  event : (payload : Bytes) → (code : ℕ) → Post
  answer : (payload : Bytes) → (code : ℕ) → Post
  failure_answer : (code : ℕ) → TunnelFailure → Post
  acknowledgement : (code : ℕ) → Post
  channel_error : (code : ℕ) → Post
  terminated : (code : ℕ) → Post
  metadata : (code : ℕ) → Post

-- A post and whether it was accepted.
abbrev pub Sent : Type 0
Sent = Post × Bool

-- What `conn.Read` answers, with what the jsonrpc package encodes of it. An identifier that is not
-- valid is none.
pub data Reading : Type 0 where
  read_error : TransportError → Reading
  nil_message : Reading
  notification : (encoded : Option Bytes) → Reading
  response : (identifier : Option ℕ) → (encoded : Option Bytes) → Reading
  other_message : Reading

-- `accepted` is the answer to the post of this turn, if there is one.
pub record Turn : Type 0 where
  pub reading : Reading
  pub failure_encodes : Bool
  pub accepted : Bool

-- `ended` is false while the loop still reads.
pub record Forwarded : Type 0 where
  pub posts : List Sent
  pub ended : Bool
  pub response_delivered : Bool
  pub terminal_response_delivered : Bool
  pub mcp_response_received : Bool

abbrev pub still_reading : Forwarded
still_reading = record {
  posts = [];
  ended = false;
  response_delivered = false;
  terminal_response_delivered = false;
  mcp_response_received = false;
}

abbrev pub without_response : Forwarded
without_response = record still_reading { ended = true }

-- A payload that was encoded and is not empty.
abbrev pub usable : Option Bytes → Option Bytes
usable none = none
usable (some []) = none
usable (some (b ∷ bs)) = some (b ∷ bs)

-- `newProtocolFailureError`.
abbrev pub protocol_failure_error : TransportError
protocol_failure_error = record no_error { protocol_failure = true }

-- `postTerminalErrorResponse` and the return behind it.
unfoldable pub post_terminal_error_response : TransportError → Turn → Forwarded
post_terminal_error_response cause t =
    if t.failure_encodes
    then record without_response {
      posts = (failure_answer 502 (classify_tunnel_failure 0 cause), t.accepted) ∷ [];
      response_delivered = t.accepted;
    }
    else without_response

abbrev pub same_identifier : ℕ → Option ℕ → Bool
same_identifier request none = false
same_identifier request (some identifier) = identifier == request

unfoldable pub forward_final : (code request : ℕ) → Option ℕ → Option Bytes → Turn → Forwarded
unfolding post_terminal_error_response
forward_final code request identifier none t = post_terminal_error_response protocol_failure_error t
forward_final code request identifier (some payload) t =
    if same_identifier request identifier
    then record {
      posts = (answer payload code, t.accepted) ∷ [];
      ended = true;
      response_delivered = t.accepted;
      terminal_response_delivered = t.accepted;
      mcp_response_received = true;
    }
    else post_terminal_error_response protocol_failure_error t

unfoldable pub stop_at : TransportError → Turn → Forwarded
unfolding post_terminal_error_response
stop_at e t =
    if e.is_connection_closed || e.is_eof
    then post_terminal_error_response e t
    else if e.is_deadline || e.is_canceled
    then without_response
    else post_terminal_error_response e t

abbrev pub add_post : Sent → Forwarded → Forwarded
add_post s f = record f { posts = s ∷ f.posts }

-- One notification, with what comes of the readings behind it. One that does not encode ends the
-- forwarding without a response.
abbrev pub forward_notification : ℕ → Option Bytes → Bool → Forwarded → Forwarded
forward_notification code none accepted rest = without_response
forward_notification code (some payload) accepted rest =
    add_post (event payload code, accepted) rest

abbrev pub pass : (code request : ℕ) → (enabled : Bool) → Reading → Turn → Forwarded → Forwarded
pass code request enabled (read_error e) t rest = stop_at e t
pass code request enabled nil_message t rest = post_terminal_error_response protocol_failure_error t
pass code request enabled (notification encoded) t rest =
    if not enabled then rest else forward_notification code (usable encoded) t.accepted rest
pass code request enabled (response identifier encoded) t rest =
    forward_final code request identifier (usable encoded) t
pass code request enabled other_message t rest =
    post_terminal_error_response protocol_failure_error t

-- The loop, with `notificationForwardingEnabled`: a post of a notification that is not accepted
-- ends the forwarding of notifications.
unfoldable pub forward_responses : (code request : ℕ) → (enabled : Bool) → List Turn → Forwarded
forward_responses code request enabled [] = still_reading
forward_responses code request enabled (t ∷ ts) =
    let rest = forward_responses code request (enabled && t.accepted) ts in
    pass code request enabled t.reading t rest

-- What becomes of the connection when the forwarding ends.
pub data ConnectionEnd : Type 0 where
  left_open retired closed : ConnectionEnd

unfoldable pub connection_end :
    (deadline_reached preserves retires : Bool) → Forwarded → ConnectionEnd
connection_end deadline_reached preserves retires f =
    if f.terminal_response_delivered || (f.mcp_response_received && deadline_reached)
    then left_open
    else if f.mcp_response_received && preserves
    then left_open
    else if deadline_reached && retires
    then retired
    else closed
