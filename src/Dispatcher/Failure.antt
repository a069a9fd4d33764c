-- ===== src/Dispatcher/Failure.antt =====
-- Where a failed request failed: pkg/dispatcher/internal/tunnel_failure.go. An error is what
-- `errors.Is` and `errors.As` answer of it.
pub mod Agreement
use tunnel_client.Base.{ℕ, Bool, true, false, ◌&&◌, ◌||◌, Option, none, some, leb, if◌then◌else◌}

pub data Source : Type 0 where
  target_http dns_source tls_source connect_source transport_closed timeout_source protocol
        client_internal :
      Source

pub data TransportErrorKind : Type 0 where
  unspecified closed_pipe connection_aborted connection_closed connection_refused connection_reset :
      TransportErrorKind
  dial dns eof host_unreachable http_status invalid_mcp_error invalid_protocol_response :
      TransportErrorKind
  malformed_json network_unreachable non_protocol_response response_body_missing :
      TransportErrorKind
  response_body_too_large response_body_unreadable timeout tls unexpected_eof unknown_kind
        canceled :
      TransportErrorKind

-- The kinds of `NonProtocolResponseError` that have a name, and all others.
pub data NonProtocolKind : Type 0 where
  body_missing body_unreadable body_too_large malformed invalid_error another_kind : NonProtocolKind

-- `is_tls` stands for the test of the seven TLS and certificate errors, `times_out` for a
-- `Timeout` method that answers true, `is_dial` for an `OpError` of a dial.
pub record TransportError : Type 0 where
  pub non_protocol : Option NonProtocolKind
  pub protocol_failure : Bool
  pub is_closed_pipe : Bool
  pub is_epipe : Bool
  pub is_eof : Bool
  pub is_unexpected_eof : Bool
  pub is_net_closed : Bool
  pub is_connection_closed : Bool
  pub is_reset : Bool
  pub is_aborted : Bool
  pub is_dns : Bool
  pub is_tls : Bool
  pub is_deadline : Bool
  pub times_out : Bool
  pub is_refused : Bool
  pub is_network_unreachable : Bool
  pub is_host_unreachable : Bool
  pub is_dial : Bool
  pub is_canceled : Bool

-- No error, and any error that nothing is known of.
abbrev pub no_error : TransportError
no_error = record {
  non_protocol = none;
  protocol_failure = false;
  is_closed_pipe = false;
  is_epipe = false;
  is_eof = false;
  is_unexpected_eof = false;
  is_net_closed = false;
  is_connection_closed = false;
  is_reset = false;
  is_aborted = false;
  is_dns = false;
  is_tls = false;
  is_deadline = false;
  times_out = false;
  is_refused = false;
  is_network_unreachable = false;
  is_host_unreachable = false;
  is_dial = false;
  is_canceled = false;
}

pub record TunnelFailure : Type 0 where
  pub source : Source
  pub transport_error_kind : TransportErrorKind
  pub upstream_response_received : Bool
  pub upstream_status : ℕ

abbrev pub kind_from_non_protocol : NonProtocolKind → TransportErrorKind
kind_from_non_protocol body_missing = response_body_missing
kind_from_non_protocol body_unreadable = response_body_unreadable
kind_from_non_protocol body_too_large = response_body_too_large
kind_from_non_protocol malformed = malformed_json
kind_from_non_protocol invalid_error = invalid_mcp_error
kind_from_non_protocol another_kind = non_protocol_response

abbrev pub is_http_error : ℕ → Bool
is_http_error status = leb 400 status && leb status 599

-- The tests behind those for protocol failures.
abbrev pub network_kind : TransportError → TransportErrorKind
network_kind e =
    if e.is_refused
    then connection_refused
    else if e.is_network_unreachable
    then network_unreachable
    else if e.is_host_unreachable
    then host_unreachable
    else if e.is_dial
    then dial
    else if e.is_canceled
    then canceled
    else unknown_kind

abbrev pub late_kind : TransportError → TransportErrorKind
late_kind e =
    if e.is_dns
    then dns
    else if e.is_tls
    then tls
    else if e.is_deadline
    then timeout
    else if e.times_out
    then timeout
    else network_kind e

abbrev pub stream_kind : TransportError → TransportErrorKind
stream_kind e =
    if e.is_closed_pipe || e.is_epipe
    then closed_pipe
    else if e.is_eof
    then eof
    else if e.is_unexpected_eof
    then unexpected_eof
    else if e.is_net_closed || e.is_connection_closed
    then connection_closed
    else if e.is_reset
    then connection_reset
    else if e.is_aborted
    then connection_aborted
    else late_kind e

abbrev pub kind_of : ℕ → Option NonProtocolKind → TransportError → TransportErrorKind
kind_of status (some k) e = kind_from_non_protocol k
kind_of status none e =
    if is_http_error status
    then http_status
    else (if e.protocol_failure then invalid_protocol_response else stream_kind e)

unfoldable pub classify_transport_error_kind : ℕ → TransportError → TransportErrorKind
classify_transport_error_kind status e = kind_of status e.non_protocol e

abbrev pub public_kind : TransportErrorKind → TransportErrorKind
public_kind canceled = unspecified
public_kind k = k

abbrev pub transport_source : TransportError → Source
transport_source e =
    if e.is_closed_pipe
      || (e.is_eof
          || (e.is_unexpected_eof
              || (e.is_net_closed
                  || (e.is_connection_closed || (e.is_epipe || (e.is_reset || e.is_aborted))))))
    then transport_closed
    else if e.is_dns
    then dns_source
    else if e.is_tls
    then tls_source
    else if e.is_deadline
    then timeout_source
    else if e.times_out
    then timeout_source
    else if e.is_dial
    then connect_source
    else if e.is_refused || (e.is_network_unreachable || e.is_host_unreachable)
    then connect_source
    else client_internal

abbrev pub source_of_error : Option NonProtocolKind → TransportError → Source
source_of_error (some k) e = protocol
source_of_error none e = if e.protocol_failure then protocol else transport_source e

unfoldable pub classify_tunnel_failure : ℕ → TransportError → TunnelFailure
unfolding classify_transport_error_kind
classify_tunnel_failure status e =
    let kind = public_kind (classify_transport_error_kind status e) in
    if is_http_error status
    then record {
      source = target_http;
      transport_error_kind = kind;
      upstream_response_received = true;
      upstream_status = status;
    }
    else record {
      source = source_of_error e.non_protocol e;
      transport_error_kind = kind;
      upstream_response_received = false;
      upstream_status = 0;
    }
