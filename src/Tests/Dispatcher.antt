-- ===== src/Tests/Dispatcher.antt =====
-- The dispatcher on concrete commands and messages.
use tunnel_client.Base.{
  ◌≡◌, refl, Bool, true, false, Option, none, some, List, [], ◌∷◌, Bytes, codes, bytes_eq, ◌⊎◌,
}
use tunnel_client.Channel.{canonical, default_channel}
use tunnel_client.Dispatcher.Failure.{
  TransportError, no_error, classify_tunnel_failure, classify_transport_error_kind,
}
use tunnel_client.Dispatcher.Failure.Agreement.{
  IsByTarget, IsByTransport, IsPublic, classify_tunnel_failure_lem,
}
use tunnel_client.Dispatcher.Forwarding.{
  event, answer, channel_error, Turn, notification, response, forward_responses, forward_final,
  connection_end, left_open,
}
use tunnel_client.Dispatcher.Forwarding.Order.{IsOrdered}
use tunnel_client.Dispatcher.Processor.{
  Request, json_rpc, Command, ChannelConfig, Environment, process,
}
use tunnel_client.Dispatcher.Processor.Order.{process-IsOrdered}
use tunnel_client.Dispatcher.Processor.Answers.{IsCalm, IsAnswered, process-IsAnswered}

abbrev cancelled_dial : TransportError
cancelled_dial = record no_error { is_canceled = true; is_dial = true; is_refused = true }

classify_tunnel_failure_lem_example :
    (IsByTarget 0 (classify_tunnel_failure 0 cancelled_dial)
      ⊎ IsByTransport 0
          (classify_transport_error_kind 0 cancelled_dial)
          (classify_tunnel_failure 0 cancelled_dial))
    × IsPublic
        (classify_transport_error_kind 0 cancelled_dial)
        (classify_tunnel_failure 0 cancelled_dial).transport_error_kind
classify_tunnel_failure_lem_example = classify_tunnel_failure_lem 0 cancelled_dial

abbrev turn_of : Bool → Option Bytes → Turn
turn_of accepted payload = record {
  reading = notification payload;
  failure_encodes = true;
  accepted = accepted;
}

-- Three notifications, of which the second is not accepted, and the response.
abbrev turns : List Turn
turns =
    turn_of true (some (codes "a"))
    ∷ turn_of false (some (codes "b"))
    ∷ turn_of true (some (codes "c"))
    ∷ record {
      reading = response (some 7) (some (codes "r"));
      failure_encodes = true;
      accepted = true;
    }
    ∷ []

abbrev environment : Environment
environment = record {
  deadline_passed = false;
  connect_error = none;
  done_after_connect = false;
  written_status = 200;
  write_error = none;
  preserved = none;
  done_after_write = false;
  turns = turns;
  terminated_status = 0;
  terminate_error = none;
  server_url = false;
  candidates = none;
  failure_encodes = true;
  accepted = true;
}

abbrev main_only : List (Bytes × ChannelConfig)
main_only =
    (
      default_channel,
      record {
        routable = true;
        supports_mcp = true;
        supports_oauth = false;
        supports_session_termination = false;
        terminates = false;
      },
    )
    ∷ []

abbrev request : Request
request = record { identifier = some 7 }

abbrev call : Bytes → Command
call channel = record { shard_token = codes "t"; channel = channel; kind = json_rpc (some request) }

forwarded_test :
    (process main_only environment (call [])).posts
    ≡ (event (codes "a") 200, true)
      ∷ (event (codes "b") 200, false)
      ∷ (answer (codes "r") 200, true)
      ∷ []
unfolding process bytes_eq forward_final
forwarded_test = refl

rejected_test :
    (process main_only environment (call (codes "other"))).posts ≡ (channel_error 400, true) ∷ []
unfolding process canonical bytes_eq
rejected_test = refl

preserved_test : connection_end true false false (forward_responses 200 7 true turns) ≡ left_open
unfolding connection_end forward_responses forward_final
preserved_test = refl

process-IsOrdered_example : IsOrdered true (process main_only environment (call [])).posts
process-IsOrdered_example = process-IsOrdered main_only environment (call [])

environment-IsCalm : IsCalm environment
environment-IsCalm = record {
  no_deadline = refl;
  connects_in_time = refl;
  writes_in_time = refl;
  encodes = refl;
  ends = (refl, (refl, (refl, refl)));
}

process-IsAnswered_example : IsAnswered (process main_only environment (call []))
process-IsAnswered_example =
    process-IsAnswered main_only environment (call []) request refl refl environment-IsCalm
