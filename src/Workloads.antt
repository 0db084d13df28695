-- ===== src/Workloads.antt =====
-- src/app: the two demo workloads in Go, a server and a client that authenticate each other by the
-- SPIFFE IDs of their certificates.
pub mod Config
pub mod Identity
pub mod Server
pub mod Client
pub mod Mutual
mod Tests
