-- ===== src/Dispatcher.antt =====
-- The dispatcher: pkg/dispatcher/internal/tunnel_failure.go and processor.go.
pub mod Failure
pub mod Forwarding
pub mod Processor
pub mod Listener
