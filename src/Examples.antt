-- ===== src/Examples.antt =====
-- The theorems applied to concrete sessions, tables, requests and pages, and tests on the same data.
mod Data
mod Sessions
mod Sockets
mod Exports
mod Requests
mod Settings
mod Pages
mod Views
mod Worlds
mod Registries
