-- ===== src/Tests.antt =====
-- Inputs at which the theorems apply: stand-ins for the crates, and the theorems at concrete values.
pub mod Actor
pub mod Config
pub mod Crate
pub mod Domain
pub mod Flights
pub mod Http
pub mod Markdown
pub mod Progress
pub mod Queue
pub mod System
pub mod Upload
pub mod Web
pub mod Router
pub mod ReadBack
pub mod Pages
pub mod Startup
pub mod Service
pub mod Sql
pub mod Spawn
pub mod Store
