-- ===== src/Tests.antt =====
-- Concrete runs of the models, at which the theorems are applied.
pub mod Setting
mod Storage
mod Reports
mod Application
mod Client
mod Writing
mod Web
mod Ingest
mod Pool
mod Services
mod Website
mod Store
mod Linux
mod Migration
mod CApi
