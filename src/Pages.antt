-- ===== src/Pages.antt =====
-- The pages of the dashboard (web/src/pages): their state, its handlers and what they render, above the
-- hooks of web/src/lib/api.ts.
pub mod Badges
pub mod Search
pub mod View
pub mod Fields
pub mod Settings
pub mod Nodes
pub mod Peers
pub mod Topology
pub mod Dashboard
