-- ===== src/Tests.antt =====
-- Sample data, tests by evaluation, and the theorems at concrete inputs.
mod Samples
mod Sealing
mod Policy
mod Forwarding
mod Serving
mod Commands
mod Upstreams
mod Dialling
mod Bodies
mod Shutdowns
mod Certificates
mod Deliveries
mod Startups
mod Logging
