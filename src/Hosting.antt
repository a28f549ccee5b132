-- ===== src/Hosting.antt =====
-- apps/hosting: the Django app that deploys and serves sites.
pub mod Slug
pub mod Paths
pub mod Storage
pub mod Extract
pub mod Semver
pub mod Models
pub mod Access
pub mod Expiry
pub mod Deployments
pub mod Apps
pub mod Serve
pub mod Tokens
pub mod Hosts
pub mod Deletion
pub mod Lifecycle
