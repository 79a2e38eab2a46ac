-- ===== src/Server/Filter.antt =====
-- The filter language of internal/core/domain/filter.go and filter_parser.go.
pub mod Ast
pub mod Token
pub mod Parser
pub mod Eval
pub mod Resolve
