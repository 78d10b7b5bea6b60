-- ===== src/Sdk.antt =====
-- The browser SDK (sdk/src).
pub mod SessionState
pub mod SessionManager
pub mod CrossDomain
pub mod Sender
pub mod Storage
