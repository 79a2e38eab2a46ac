-- ===== src/Server.antt =====
-- The control plane: the tables and what edits them, the filter language, dispatches, bans, the
-- reading of results, the health and the circuit breaker, triggers, and the HTTP layer.
pub mod Filter
pub mod Rows
pub mod Workflow
pub mod Runs
pub mod Requests
pub mod Editing
pub mod Ban
pub mod Dispatch
pub mod Orchestration
pub mod Results
pub mod Loop
pub mod Health
pub mod Circuit
pub mod Clients
pub mod Api
pub mod Http
pub mod Config
pub mod Events
pub mod Triggers
pub mod System
pub mod Settings
