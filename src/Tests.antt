-- ===== src/Tests.antt =====
-- Runs of the definitions on concrete inputs, and the theorems at concrete inputs.
mod Routing
mod Responder
mod Health
mod Poller
mod CallBuffer
mod Stdio
mod Activity
mod Readiness
mod Channel
mod Cloudflared
mod Discovery
mod SharedConnection
mod Dispatcher
mod ExtraHeaders
mod Harpoon
mod Listener
