-- ===== src/Server.antt =====
-- The server: its configuration, the workers of the ingest service, the processing of reports and
-- the handlers of the web service.
pub mod Config
pub mod Contexts
pub mod Ingest
pub mod WebService
pub mod Workers
pub mod Path
pub mod Handlers
pub mod Sanitize
pub mod Space
pub mod Processor
pub mod Database
pub mod Migration
pub mod Routes
