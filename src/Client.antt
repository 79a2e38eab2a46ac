-- ===== src/Client.antt =====
-- The super-client: the simulated inner clients of internal/core/domain/inner_client.go, what an
-- activity does to one of them, the chaos layer, and the services that keep the pool of them.
pub mod Value
pub mod State
pub mod Activity
pub mod Chaos
pub mod Store
pub mod Collector
pub mod Dispatch
pub mod Pool
