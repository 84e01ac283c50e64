-- ===== src/Nango.antt =====
-- src/nango: the processors that fetch records from Nango, and the webhook's signature.
pub mod Raw
pub mod Pages
pub mod Sync
pub mod Reconcile
pub mod Verify
pub mod Landing
pub mod Checkpoint
pub mod Finite
pub mod Endless
pub mod Fixtures
pub mod Delivery
