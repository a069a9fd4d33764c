-- ===== src/Dispatcher/Processor/Order.antt =====
-- The order of the posts for a command: pkg/dispatcher/internal/processor.go.
use tunnel_client.Base.{ℕ, refl, true, Option, none, some, List, [], ◌∷◌, Bytes, arith}
use tunnel_client.Discovery.{
  Fetch, Retried, Metadata, found, no_urls, metadata_failed, fetch_oauth_metadata,
}
use tunnel_client.Dispatcher.Failure.{TransportError, classify_tunnel_failure, TunnelFailure}
use tunnel_client.Dispatcher.Processor.{
  Request, CommandKind, json_rpc, oauth_discovery, session_termination, unknown_command, Command,
  ChannelConfig, Environment, the_error, normalize_transport_status_code, post_failure,
  connect_failed, answer_request, written, exchange, process_json_rpc_command,
  process_session_termination_command, discovered, discover, process_oauth_discovery_command,
  reject_unsupported_channel, lookup, channel_of, dispatch, route, process,
}
use tunnel_client.Dispatcher.Forwarding.Order.{IsOrdered, forward_responses-IsOrdered}

post_failure-IsOrdered :
    (env : Environment) (code : ℕ) (f : TunnelFailure)
    → IsOrdered true (post_failure env code f).posts
unfolding post_failure
post_failure-IsOrdered env code f = ground arith

answer_request-IsOrdered :
    (env : Environment) (status : ℕ) (i : Option ℕ)
    → IsOrdered true (answer_request env status i).posts
answer_request-IsOrdered env status none = refl
answer_request-IsOrdered env status (some request) =
    forward_responses-IsOrdered status request true env.turns

written-IsOrdered :
    (env : Environment) (status : ℕ) (i : Option ℕ) (o : Option Bytes)
    → IsOrdered true (written env status i o).posts
written-IsOrdered env status i (some payload) = refl
written-IsOrdered env status i none = ground (
  arith,
  answer_request-IsOrdered env status i,
  post_failure-IsOrdered env status
      (classify_tunnel_failure env.written_status (the_error env.write_error)),
)

exchange-IsOrdered :
    (env : Environment) (i : Option ℕ) (o : Option TransportError)
    → IsOrdered true (exchange env i o).posts
unfolding connect_failed
exchange-IsOrdered env i (some e) = ground (
  arith,
  post_failure-IsOrdered env (normalize_transport_status_code 0 (some e))
      (classify_tunnel_failure 0 e),
)
exchange-IsOrdered env i none = ground (
  arith,
  written-IsOrdered env (normalize_transport_status_code env.written_status env.write_error) i
      env.preserved,
)

json_rpc-IsOrdered :
    (env : Environment) (o : Option Request) → IsOrdered true (process_json_rpc_command env o).posts
unfolding process_json_rpc_command
json_rpc-IsOrdered env none = tt
json_rpc-IsOrdered env (some r) = exchange-IsOrdered env r.identifier env.connect_error

rejected-IsOrdered :
    (env : Environment) (k : CommandKind) → IsOrdered true (reject_unsupported_channel env k).posts
unfolding reject_unsupported_channel
rejected-IsOrdered env (json_rpc none) = tt
rejected-IsOrdered env (json_rpc (some r)) = ground arith
rejected-IsOrdered env oauth_discovery = refl
rejected-IsOrdered env session_termination = refl
rejected-IsOrdered env unknown_command = tt

discovered-IsOrdered : (env : Environment) (m : Metadata) → IsOrdered true (discovered env m).posts
discovered-IsOrdered env (found candidate status) = refl
discovered-IsOrdered env no_urls = tt
discovered-IsOrdered env (metadata_failed t) = tt

discover-IsOrdered :
    (env : Environment) (o : Option (List Fetch × List Retried))
    → IsOrdered true (discover env o).posts
discover-IsOrdered env none = tt
discover-IsOrdered env (some ([], second)) = tt
discover-IsOrdered env (some (f ∷ first, second)) =
    discovered-IsOrdered env (fetch_oauth_metadata (f ∷ first) second)

dispatch-IsOrdered :
    (env : Environment) (channel : Bytes) (k : CommandKind) (c : ChannelConfig)
    → IsOrdered true (dispatch env channel k c).posts
unfolding process_oauth_discovery_command process_session_termination_command
dispatch-IsOrdered env channel (json_rpc o) c = json_rpc-IsOrdered env o
dispatch-IsOrdered env channel oauth_discovery c =
    ground (arith, rejected-IsOrdered env oauth_discovery, discover-IsOrdered env env.candidates)
dispatch-IsOrdered env channel session_termination c = ground arith
dispatch-IsOrdered env channel unknown_command c = tt

route-IsOrdered :
    (env : Environment) (channel : Bytes) (k : CommandKind) (o : Option ChannelConfig)
    → IsOrdered true (route env channel k o).posts
route-IsOrdered env channel k none = rejected-IsOrdered env k
route-IsOrdered env channel k (some c) =
    ground (arith, rejected-IsOrdered env k, dispatch-IsOrdered env channel k c)

-- Whatever the channels, the command and the environment are, also while it is still read from the
-- server: the posts for a command are events, none of them behind one that was not accepted, and
-- then at most one post that ends the command, with no post behind it.
pub process-IsOrdered :
    (channels : List (Bytes × ChannelConfig)) (env : Environment) (cmd : Command)
    → IsOrdered true (process channels env cmd).posts
unfolding process
process-IsOrdered channels env cmd =
    ground (arith, route-IsOrdered env (channel_of cmd) cmd.kind (lookup (channel_of cmd) channels))
