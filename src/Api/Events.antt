-- ===== src/Api/Events.antt =====
-- Ingestion of session payloads (api/src/events).
pub mod PayloadDto
pub mod EventBuffer
