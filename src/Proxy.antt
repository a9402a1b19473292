-- ===== src/Proxy.antt =====
-- internal/proxy: the forward handler and its parts.
pub mod Dots
pub mod Policy
pub mod Override
pub mod Ingress
pub mod Server
pub mod Director
pub mod Forward
pub mod Egress
pub mod Respond
pub mod Serve
pub mod Upstream
pub mod Body
pub mod TlsCert
pub mod Log
pub mod Dialled
