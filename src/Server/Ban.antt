-- ===== src/Server/Ban.antt =====
-- Bans: internal/core/domain/ban.go, the table of internal/adapters/repository/ban_repo.go, the
-- cache of internal/adapters/enforcement/blocker.go, the service of
-- internal/core/services/ban_enforcement.go and the filter of dispatch_filter.go.
pub mod Record
pub mod Table
pub mod Blocker
pub mod Service
pub mod Cache
pub mod DispatchFilter
