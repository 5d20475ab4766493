-- ===== src/Rules.antt =====
-- The rules of a tenant: backend/internal/rules/ast.go evaluates their conditions, and
-- backend/internal/rules/service.go keeps them in a table.
pub mod Text
pub mod Value
pub mod Ast
pub mod Service
