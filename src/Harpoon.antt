-- ===== src/Harpoon.antt =====
-- Harpoon, the allow list of outbound targets: pkg/runtimeharpoon. The registry and its redirects,
-- the labels and the policy of hosts registered by themselves.
pub mod Urls
pub mod Metadata
pub mod Target
pub mod Registry
pub mod Lookup
pub mod Redirect
pub mod Labels
pub mod Hosts
pub mod HostPolicy
pub mod HostRegistration
