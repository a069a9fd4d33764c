-- ===== src/Dispatcher/Failure/Agreement.antt =====
-- The two classifications of a failure agree.
use tunnel_client.Base.{
  ℕ, ◌≡◌, ◌≢◌, refl, true, false, ◌||◌, Option, none, some, if◌then◌else◌, arith, ◌⊎◌, inl, inr,
  Bool-cases,
}
use tunnel_client.Dispatcher.Failure.{
  Source, target_http, dns_source, tls_source, connect_source, transport_closed, timeout_source,
  protocol, client_internal, TransportErrorKind, unspecified, closed_pipe, connection_aborted,
  connection_closed, connection_refused, connection_reset, dial, dns, eof, host_unreachable,
  http_status, network_unreachable, timeout, tls, unexpected_eof, unknown_kind, canceled,
  NonProtocolKind, body_missing, body_unreadable, body_too_large, malformed, invalid_error,
  another_kind, TransportError, TunnelFailure, is_http_error, network_kind, stream_kind, kind_of,
  classify_transport_error_kind, public_kind, transport_source, source_of_error,
  classify_tunnel_failure,
}

-- The source that a kind belongs to.
abbrev pub source_of : TransportErrorKind → Source
source_of closed_pipe = transport_closed
source_of eof = transport_closed
source_of unexpected_eof = transport_closed
source_of connection_closed = transport_closed
source_of connection_reset = transport_closed
source_of connection_aborted = transport_closed
source_of dns = dns_source
source_of tls = tls_source
source_of timeout = timeout_source
source_of connection_refused = connect_source
source_of network_unreachable = connect_source
source_of host_unreachable = connect_source
source_of dial = connect_source
source_of http_status = target_http
source_of unspecified = client_internal
source_of unknown_kind = client_internal
source_of canceled = client_internal
source_of _ = protocol

network_source :
    (e : TransportError)
    → source_of (network_kind e) ≡ (
        if e.is_dial
        then connect_source
        else (if e.is_refused || (e.is_network_unreachable || e.is_host_unreachable)
            then connect_source
            else client_internal))
network_source e = ground arith

stream_source : (e : TransportError) → source_of (stream_kind e) ≡ transport_source e
stream_source e = ground (arith, network_source e)

source_of-kind_of :
    (status : ℕ) (o : Option NonProtocolKind) (e : TransportError)
    → is_http_error status ≡ false
    → source_of_error o e ≡ source_of (kind_of status o e)
source_of-kind_of status (some body_missing) e h = refl
source_of-kind_of status (some body_unreadable) e h = refl
source_of-kind_of status (some body_too_large) e h = refl
source_of-kind_of status (some malformed) e h = refl
source_of-kind_of status (some invalid_error) e h = refl
source_of-kind_of status (some another_kind) e h = refl
source_of-kind_of status none e h = ground (arith, stream_source e)

-- What is sent of a kind that was found.
abbrev pub IsPublic : TransportErrorKind → TransportErrorKind → Type 0
IsPublic found_kind sent_kind =
    ((found_kind ≡ canceled) × (sent_kind ≡ unspecified))
    ⊎ ((found_kind ≢ canceled) × (sent_kind ≡ found_kind))

public_kind-IsPublic : (k : TransportErrorKind) → IsPublic k (public_kind k)
public_kind-IsPublic canceled = inl (refl, refl)
public_kind-IsPublic k = inr ((λ e. cc), refl)

-- The target is blamed for its own status.
abbrev pub IsByTarget : ℕ → TunnelFailure → Type 0
IsByTarget status f =
    (is_http_error status ≡ true)
    × (f.source ≡ target_http)
    × (f.upstream_response_received ≡ true)
    × (f.upstream_status ≡ status)

abbrev pub IsByTransport : ℕ → TransportErrorKind → TunnelFailure → Type 0
IsByTransport status found_kind f =
    (is_http_error status ≡ false)
    × (f.source ≡ source_of found_kind)
    × (f.upstream_response_received ≡ false)
    × (f.upstream_status ≡ 0)

-- Whatever the status and the error are: a status from 400 to 599 makes the target the source of
-- the failure, with that status; otherwise the source is the one that the error's kind, found by a
-- separate chain of tests in another order, belongs to, and no status is given. The kind that is
-- sent is the kind found, but never a cancellation.
pub classify_tunnel_failure_lem :
    (status : ℕ) (e : TransportError)
    → (IsByTarget status (classify_tunnel_failure status e)
        ⊎ IsByTransport status
            (classify_transport_error_kind status e)
            (classify_tunnel_failure status e))
      × IsPublic
          (classify_transport_error_kind status e)
          (classify_tunnel_failure status e).transport_error_kind
unfolding classify_tunnel_failure classify_transport_error_kind
classify_tunnel_failure_lem status e = elim (Bool-cases (is_http_error status)) [
  | inl a ↦
      rw a (inl (refl, refl, refl, refl), public_kind-IsPublic (kind_of status e.non_protocol e))
  | inr a ↦ rw a (
    inr (refl, source_of-kind_of status e.non_protocol e a, refl, refl),
    public_kind-IsPublic (kind_of status e.non_protocol e),
  )
]
