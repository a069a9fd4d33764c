-- ===== src/Lib.antt =====
-- The tunnel client: a process that polls a control plane for commands, runs them against an
-- MCP server behind a firewall, and posts the responses back.
--
-- How the parts fit together. The polling loop (`Poller`) asks for as many commands as its queue
-- has room for; each poll goes through the HTTP client, which sends the shard token that the
-- placement state (`Routing`) holds and reports to it how the poll ended. Typed commands go into
-- the queue in order; the dispatcher takes them out, runs each against an MCP transport (`Stdio`
-- for a child process that all connections share), and posts the response (`Responder`), with
-- retries that honour the hints of the server (`RetryAfter`). Polls, queue and deliveries are
-- observed by the health components (`Health`, `Activity`), which publish counters and change
-- notifications. Readiness (`Readiness`) waits for the OAuth discovery and the startup probe, each
-- recorded once; the discovery asks each candidate, again with retries if all only timed out. An
-- optional cloudflared child is supervised (`Cloudflared`). The Harpoon tools keep their recent
-- calls in a ring buffer (`CallBuffer`), and reach only the targets of a registry, which discovered
-- hosts may join (`Harpoon`).
--
-- Which file models what; paths are from the repository's root.
--
-- - Base and its children: shared names, byte strings, times and durations, decimal digits, and
--   `Base.Watch`, the channel that `Changes` hands out and `signal` closes.
-- - Routing: pkg/controlplane/internal/routing.go, and the calls of `complete` in `Poll` of
--   pkg/controlplane/internal/tunnel_service_client.go. Routing.Parse: the parser of a
--   correction, pkg/controlplane/wiretypes/routing.go, over a JSON decoder that is a parameter.
-- - RetryAfter: pkg/controlplane/internal/retry_after.go, over a parameter for HTTP dates.
-- - ErrorView: what `errors.Is` and `errors.As` answer of an error, and `healthFailure` of
--   pkg/controlplane/internal/health.go.
-- - Channel: channel names and responses, pkg/types/channel.go and tunnel_response.go.
-- - Responder: `PostResponse` of tunnel_service_client.go. What the HTTP client, the backoff and
--   the wait do in each attempt is the environment, a function of the attempt's number.
-- - Health: pkg/controlplane/health.go and pkg/healthstate. Health.Poll, Health.Delivery and
--   Health.Queue are `PollHealth`, `DeliveryHealth` and `QueueHealth` with all their methods.
-- - Poller: pkg/controlplane/internal/poller.go, a batch of commands and its waits; Poller.Loop:
--   `Run`, one pass of the loop with its environment, and the loop over a list of passes. The
--   backoff library is a state with a draw and a reset.
-- - Stdio: pkg/mcpclient/serialized_forwarding_transport.go, the retired identifiers of a shared
--   child; Stdio.Exchange: one connection's requests, the ends of their writes, messages of the
--   server and deadlines. The identifiers of the jsonrpc package are parameters.
-- - Activity: `ActivityHealth` of pkg/dispatcher/internal/health.go, the works in flight and their
--   slots.
-- - Readiness: `readinessStatus` of pkg/runtimehealth/health.go, with pkg/oauth/state.go,
--   pkg/oauth/discovery_failure.go and pkg/mcpclient/probe_state.go.
-- - Dispatcher: Dispatcher.Failure is pkg/dispatcher/internal/tunnel_failure.go; Dispatcher.Processor
--   is `Process` of processor.go with the methods it calls, over the registered channels, and
--   Dispatcher.Forwarding its `forwardResponses`.
-- - SharedConnection: pkg/mcpclient/shared_connection_transport.go, on a heap of connections.
-- - Discovery: the passes of pkg/oauth/discovery.go and pkg/oauth/discovery_retry_policy.go over
--   candidates whose answers are the environment.
-- - Cloudflared: pkg/cloudflared/runtime/state.go, and the token and the environment of the child
--   in supervisor.go; Cloudflared.Supervisor: its start, stop, exit and monitor as interleaved
--   sections under the lock.
-- - ExtraHeaders: pkg/runtimeconfig/http_headers.go and `resolveHeaderValue` of config.go; the JSON
--   codec, the environment and the files are parameters, and white space is ASCII.
-- - CallBuffer: pkg/harpoon/call_buffer.go.
-- - Dispatcher.Listener: pkg/dispatcher/internal/queue_listener.go with its health attached: the
--   listener's goroutine and the workers of the pool as interleaved events, over Health.Queue and
--   Activity. The pool takes a task or refuses it.
-- - Harpoon: pkg/runtimeharpoon. Urls, Metadata and Target: the values that the registry reads, in
--   registry.go, metadata.go and discovery_budget.go; Registry: `RegisterTarget` with every check and
--   the section under the lock; Lookup: its readers; Redirect: `ExplainBlockedRedirect` and its
--   cache, with Redirect.Calls for calls one after another; Labels, Hosts, HostPolicy and
--   HostRegistration: host_registration.go and internal/hostclassifier/classifier.go, that is the
--   labels, the private hosts, the policies and the registration of a bundle. How net/url writes and
--   escapes a URL, how net/netip parses an address, the public suffixes, JSON and SHA-256 are
--   parameters, and a template is what `CompileTargetTemplate` answers of it. A map is the list of
--   its entries, visited in any order. The 10,000 tries for a label are the source's own bound; a
--   number has at most as many digits as it is large, which is the fuel of its text.
-- - Tests: runs of the definitions, and the theorems at concrete inputs.
--
-- Conventions. A method that holds its mutex is one step; a record stands for a pointer that is
-- not nil. Times are nanoseconds from the zero time, which is 0; counters of 64 bits stop or
-- wrap as in the source. Trimming, lowering and comparing texts without regard to case are done on
-- ASCII. A loop whose number of rounds the source bounds (the attempts of a
-- response) recurses on that bound; a loop that waits for the world (room in the queue, the
-- next pass) recurses on the list of what the world does, and a result for a list that ends
-- too early is `none` or `waits`. The search for an alias in Stdio has fuel, two rounds more
-- than there are retired identifiers.
--
-- Not modelled: HTTP requests and JSON codecs, logging, metrics and tracing, timers and
-- goroutines apart from their outcomes, the templates and the server of Harpoon, the wall clock,
-- the rest of the configuration, the command line, the admin interface and the wrappers.
pub mod Base
mod Tests
pub mod Routing
pub mod Poller
pub mod ErrorView
pub mod Channel
pub mod Responder
pub mod Health
pub mod RetryAfter
pub mod CallBuffer
pub mod Readiness
pub mod Activity
pub mod Stdio
pub mod SharedConnection
pub mod Discovery
pub mod ExtraHeaders
pub mod Dispatcher
pub mod Cloudflared
pub mod Harpoon
