-- ===== src/AppService.antt =====
-- internal/apps: what the app service decides about names, ports, repositories and deploys.
pub mod Hostnames
pub mod Ports
pub mod Deploys
pub mod Edit
mod Examples
