-- ===== src/Dispatcher/Processor.antt =====
-- What a polled command comes to: `Process` of pkg/dispatcher/internal/processor.go and the methods it
-- calls. The channels are the registered ones with what `routable` answers now; connections,
-- writes and the answers to posts are the environment.
pub mod Order
pub mod Answers
use tunnel_client.Base.{
  ℕ, zero, suc, Bool, true, false, not, ◌&&◌, ◌||◌, Option, none, some, List, [], ◌∷◌, leb,
  if◌then◌else◌, Bytes, bytes_eq, is_empty, is_some,
}
use tunnel_client.Channel.{canonical, default_channel}
use tunnel_client.Discovery.{
  Fetch, Retried, Metadata, found, no_urls, metadata_failed, fetch_oauth_metadata,
}
use tunnel_client.Dispatcher.Failure.{
  TransportError, no_error, TunnelFailure, classify_tunnel_failure,
}
use tunnel_client.Dispatcher.Forwarding.{
  Post, answer, failure_answer, acknowledgement, channel_error, terminated, metadata, Sent, Turn,
  Forwarded, forward_responses,
}

-- A request; one without an identifier is a notification.
pub record Request : Type 0 where
  pub identifier : Option ℕ

pub data CommandKind : Type 0 where
  json_rpc : (message : Option Request) → CommandKind
  oauth_discovery session_termination unknown_command : CommandKind

pub record Command : Type 0 where
  pub shard_token : Bytes
  pub channel : Bytes
  pub kind : CommandKind

-- `terminates` says that the transport is a `SessionTerminatingTransport`.
pub record ChannelConfig : Type 0 where
  pub routable : Bool
  pub supports_mcp : Bool
  pub supports_oauth : Bool
  pub supports_session_termination : Bool
  pub terminates : Bool

-- `written_status` is 0 where there is no response.
pub record Environment : Type 0 where
  pub deadline_passed : Bool
  pub connect_error : Option TransportError
  pub done_after_connect : Bool
  pub written_status : ℕ
  pub write_error : Option TransportError
  pub preserved : Option Bytes
  pub done_after_write : Bool
  pub turns : List Turn
  pub terminated_status : ℕ
  pub terminate_error : Option TransportError
  pub server_url : Bool
  pub candidates : Option (List Fetch × List Retried)
  pub failure_encodes : Bool
  pub accepted : Bool

-- The posts for a command, whether `Process` returns an error, and whether it returns.
pub record Processed : Type 0 where
  pub posts : List Sent
  pub failed : Bool
  pub returns : Bool

abbrev pub failed_without_post : Processed
failed_without_post = record { posts = []; failed = true; returns = true }

abbrev pub dropped : Processed
dropped = record { posts = []; failed = false; returns = true }

-- `postTunnelResponse` with the error it returns.
abbrev pub post_once : Environment → Post → Processed
post_once env p = record {
  posts = (p, env.accepted) ∷ [];
  failed = not env.accepted;
  returns = true;
}

abbrev pub the_error : Option TransportError → TransportError
the_error none = no_error
the_error (some e) = e

abbrev pub normalize_transport_status_code : ℕ → Option TransportError → ℕ
normalize_transport_status_code (suc n) e = suc n
normalize_transport_status_code zero (some e) = 502
normalize_transport_status_code zero none = 200

unfoldable pub post_failure : Environment → (code : ℕ) → TunnelFailure → Processed
post_failure env code f =
    if env.failure_encodes then post_once env (failure_answer code f) else failed_without_post

unfoldable pub connect_failed : Environment → Option ℕ → TransportError → Processed
unfolding post_failure
connect_failed env identifier e =
    let status = normalize_transport_status_code 0 (some e) in
    if env.done_after_connect
    then failed_without_post
    else if not (is_some identifier)
    then post_once env (acknowledgement status)
    else post_failure env status (classify_tunnel_failure 0 e)

abbrev pub forwarded : Forwarded → Processed
forwarded f = record { posts = f.posts; failed = false; returns = f.ended }

abbrev pub is_failed_write : ℕ → Option TransportError → Bool
is_failed_write status error = is_some error || leb 400 status

abbrev pub answer_request : Environment → ℕ → Option ℕ → Processed
answer_request env status none = post_once env (acknowledgement status)
answer_request env status (some request) =
    forwarded (forward_responses status request true env.turns)

abbrev pub written : Environment → ℕ → Option ℕ → Option Bytes → Processed
written env status identifier (some payload) = post_once env (answer payload status)
written env status identifier none =
    if is_failed_write status env.write_error
    then post_failure env status
        (classify_tunnel_failure env.written_status (the_error env.write_error))
    else answer_request env status identifier

abbrev pub connected : Environment → Option ℕ → Processed
connected env identifier =
    if env.done_after_connect || env.done_after_write
    then failed_without_post
    else written env (normalize_transport_status_code env.written_status env.write_error) identifier
        env.preserved

abbrev pub exchange : Environment → Option ℕ → Option TransportError → Processed
exchange env identifier (some e) = connect_failed env identifier e
exchange env identifier none = connected env identifier

unfoldable pub process_json_rpc_command : Environment → Option Request → Processed
unfolding post_failure connect_failed forward_responses
process_json_rpc_command env none = failed_without_post
process_json_rpc_command env (some request) = exchange env request.identifier env.connect_error

unfoldable pub process_session_termination_command : Environment → ChannelConfig → Processed
process_session_termination_command env c =
    if not c.supports_session_termination
    then post_once env (terminated 405)
    else if not c.terminates
    then failed_without_post
    else post_once env
        (terminated (normalize_transport_status_code env.terminated_status env.terminate_error))

abbrev pub discovered : Environment → Metadata → Processed
discovered env (found candidate status) = post_once env (metadata status)
discovered env no_urls = failed_without_post
discovered env (metadata_failed t) = failed_without_post

abbrev pub discover : Environment → Option (List Fetch × List Retried) → Processed
discover env none = failed_without_post
discover env (some ([], second)) = failed_without_post
discover env (some (f ∷ first, second)) = discovered env (fetch_oauth_metadata (f ∷ first) second)

unfoldable pub process_oauth_discovery_command : Environment → Processed
process_oauth_discovery_command env =
    if not env.server_url then failed_without_post else discover env env.candidates

-- An error is returned also when the post is accepted.
abbrev pub post_rejection : Environment → Post → Processed
post_rejection env p = record (post_once env p) { failed = true }

unfoldable pub reject_unsupported_channel : Environment → CommandKind → Processed
reject_unsupported_channel env (json_rpc none) = failed_without_post
reject_unsupported_channel env (json_rpc (some request)) =
    if env.failure_encodes then post_rejection env (channel_error 400) else failed_without_post
reject_unsupported_channel env oauth_discovery = post_rejection env (channel_error 400)
reject_unsupported_channel env session_termination = post_rejection env (terminated 400)
reject_unsupported_channel env unknown_command = failed_without_post

abbrev pub lookup : Bytes → List (Bytes × ChannelConfig) → Option ChannelConfig
lookup name [] = none
lookup name ((n, c) ∷ cs) = if bytes_eq name n then some c else lookup name cs

-- The canonical name of the channel, and the default one for a command without channel.
unfoldable pub channel_of : Command → Bytes
channel_of cmd = if is_empty cmd.channel then default_channel else canonical cmd.channel

abbrev pub dispatch : Environment → Bytes → CommandKind → ChannelConfig → Processed
dispatch env channel (json_rpc message) c = process_json_rpc_command env message
dispatch env channel oauth_discovery c =
    if not (bytes_eq channel default_channel) || not c.supports_oauth
    then reject_unsupported_channel env oauth_discovery
    else process_oauth_discovery_command env
dispatch env channel session_termination c = process_session_termination_command env c
dispatch env channel unknown_command c = failed_without_post

abbrev pub route : Environment → Bytes → CommandKind → Option ChannelConfig → Processed
route env channel kind none = reject_unsupported_channel env kind
route env channel kind (some c) =
    if not c.routable || not c.supports_mcp
    then reject_unsupported_channel env kind
    else dispatch env channel kind c

unfoldable pub process : List (Bytes × ChannelConfig) → Environment → Command → Processed
unfolding process_json_rpc_command process_session_termination_command
    process_oauth_discovery_command reject_unsupported_channel channel_of
process channels env cmd =
    if is_empty cmd.shard_token
    then failed_without_post
    else if env.deadline_passed
    then dropped
    else route env (channel_of cmd) cmd.kind (lookup (channel_of cmd) channels)
