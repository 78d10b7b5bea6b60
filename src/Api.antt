-- ===== src/Api.antt =====
-- The server (api/src).
pub mod Events
pub mod Filters
pub mod Assistant
pub mod Permissions
pub mod Members
pub mod WorkspaceGuard
pub mod SessionHandler
