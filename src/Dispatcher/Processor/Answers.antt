-- ===== src/Dispatcher/Processor/Answers.antt =====
-- That a request gets its terminal post: pkg/dispatcher/internal/processor.go.
use tunnel_client.Base.{ℕ, ◌≡◌, refl, true, false, Option, none, some, List, Bytes, is_empty, arith}
use tunnel_client.Dispatcher.Failure.{TransportError, classify_tunnel_failure, TunnelFailure}
use tunnel_client.Dispatcher.Processor.{
  Request, json_rpc, Command, ChannelConfig, Environment, Processed, the_error,
  normalize_transport_status_code, post_failure, connect_failed, answer_request, written, exchange,
  process_json_rpc_command, reject_unsupported_channel, lookup, channel_of, route, process,
}
use tunnel_client.Dispatcher.Forwarding.Ends.{terminal_posts, Ends, forward_responses-IsFinished}

-- Nothing expires or is cancelled while the command runs, failures encode, and the server's messages
-- end (`Ends`), where each notification before the end encodes.
pub record IsCalm (env : Environment) : Type 0 where
  pub no_deadline : env.deadline_passed ≡ false
  pub connects_in_time : env.done_after_connect ≡ false
  pub writes_in_time : env.done_after_write ≡ false
  pub encodes : env.failure_encodes ≡ true
  pub ends : Ends env.turns

abbrev pub IsAnswered : Processed → Type 0
IsAnswered p = (terminal_posts p.posts ≡ 1) × (p.returns ≡ true)

post_failure-IsAnswered :
    (env : Environment) (code : ℕ) (f : TunnelFailure)
    → IsCalm env
    → IsAnswered (post_failure env code f)
unfolding post_failure
post_failure-IsAnswered env code f h = ground arith

connect_failed-IsAnswered :
    (env : Environment) (i : Option ℕ) (e : TransportError)
    → IsCalm env
    → IsAnswered (connect_failed env i e)
unfolding connect_failed
connect_failed-IsAnswered env i e h = ground (
  arith,
  post_failure-IsAnswered env (normalize_transport_status_code 0 (some e))
      (classify_tunnel_failure 0 e) h,
)

answer_request-IsAnswered :
    (env : Environment) (status : ℕ) (i : Option ℕ)
    → IsCalm env
    → IsAnswered (answer_request env status i)
answer_request-IsAnswered env status none h = (refl, refl)
answer_request-IsAnswered env status (some request) h =
    forward_responses-IsFinished status request true env.turns h.ends

written-IsAnswered :
    (env : Environment) (status : ℕ) (i : Option ℕ) (o : Option Bytes)
    → IsCalm env
    → IsAnswered (written env status i o)
written-IsAnswered env status i (some payload) h = (refl, refl)
written-IsAnswered env status i none h = ground (
  arith,
  answer_request-IsAnswered env status i h,
  post_failure-IsAnswered env status
      (classify_tunnel_failure env.written_status (the_error env.write_error)) h,
)

exchange-IsAnswered :
    (env : Environment) (i : Option ℕ) (o : Option TransportError)
    → IsCalm env
    → IsAnswered (exchange env i o)
exchange-IsAnswered env i (some e) h = connect_failed-IsAnswered env i e h
exchange-IsAnswered env i none h = ground (
  arith,
  h.connects_in_time,
  h.writes_in_time,
  written-IsAnswered env (normalize_transport_status_code env.written_status env.write_error) i
      env.preserved h,
)

rejected-IsAnswered :
    (env : Environment) (r : Request)
    → IsCalm env
    → IsAnswered (reject_unsupported_channel env (json_rpc (some r)))
unfolding reject_unsupported_channel
rejected-IsAnswered env r h = ground arith

json_rpc-IsAnswered :
    (env : Environment) (r : Request)
    → IsCalm env
    → IsAnswered (process_json_rpc_command env (some r))
unfolding process_json_rpc_command
json_rpc-IsAnswered env r h = exchange-IsAnswered env r.identifier env.connect_error h

route-IsAnswered :
    (env : Environment) (channel : Bytes) (r : Request) (o : Option ChannelConfig)
    → IsCalm env
    → IsAnswered (route env channel (json_rpc (some r)) o)
route-IsAnswered env channel r none h = rejected-IsAnswered env r h
route-IsAnswered env channel r (some c) h =
    ground (arith, rejected-IsAnswered env r h, json_rpc-IsAnswered env r h)

-- A command with a shard token and a JSON-RPC request or notification, on any channel, registered or
-- not, makes `Process` return with exactly one post that ends it, under these conditions: the
-- command is not past its deadline at its start, and has neither expired nor been cancelled after
-- the connection was made and after the message was written; a payload for a failure encodes, also
-- after the message that ends the server's; and the server's messages end. They end with a
-- response, a missing message, a message of another kind, or an error of reading that is no deadline
-- or cancellation unless it also says that the connection is closed or at its end; and before that
-- come notifications only, each of which is present and encodes to a text that is not empty.
pub process-IsAnswered :
    (channels : List (Bytes × ChannelConfig)) (env : Environment) (cmd : Command) (r : Request)
    → is_empty cmd.shard_token ≡ false
    → cmd.kind ≡ json_rpc (some r)
    → IsCalm env
    → IsAnswered (process channels env cmd)
unfolding process
process-IsAnswered channels env cmd r t k h =
    rw (t, h.no_deadline, k)
      (route-IsAnswered env (channel_of cmd) r (lookup (channel_of cmd) channels) h)
