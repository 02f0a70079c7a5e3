-- ===== src/Store.antt =====
-- internal/store: the SQLite tables and the operations on them.
pub mod Table
pub mod Ranking
pub mod Rows
pub mod Schema
pub mod Projects
pub mod Apps
pub mod Endpoints
pub mod Domains
pub mod Deployments
pub mod Steps
pub mod DeployKeys
pub mod Events
pub mod Metrics
pub mod Consistent
pub mod Sample
mod Examples
pub mod Settings
pub mod Routes
