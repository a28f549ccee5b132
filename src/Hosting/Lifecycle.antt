-- ===== src/Hosting/Lifecycle.antt =====
-- The operations of apps/hosting/services.py as steps of one state.
pub mod Activating
pub mod Finalizing
pub mod Creating
pub mod Deleting
pub mod Reachable
