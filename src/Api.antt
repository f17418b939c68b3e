-- ===== src/Api.antt =====
-- The machine interfaces: API tokens and the endpoints that they open.
pub mod Tokens
pub mod Compat
pub mod Ddns
pub mod PatchScope
