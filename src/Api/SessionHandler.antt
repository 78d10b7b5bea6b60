-- ===== src/Api/SessionHandler.antt =====
-- api/src/events/session-payload.handler.ts: what the server makes of a payload, with the calls of
-- api/src/filters/lib/filter-evaluator.ts on its events.
pub mod Domain
pub mod Skew
pub mod Event
pub mod Filtering
pub mod Handle
mod Tests
