-- ===== src/Client.antt =====
-- The client as a whole: what its Go interface and its command line make of the packages.
pub mod Api
pub mod Commands
pub mod CApi
