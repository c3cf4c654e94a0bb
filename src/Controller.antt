-- ===== src/Controller.antt =====
-- The controller (internal/controller/squall).
pub mod Phase
pub mod Activity
pub mod Gather
pub mod Ownership
pub mod Served
pub mod Reaper
pub mod Finalizer
pub mod Observe
pub mod Journal
pub mod Preflight
pub mod Actuation
pub mod Refusal
pub mod Engine
pub mod Failure
pub mod Schedulable
pub mod Secrets
pub mod World
pub mod Opening
pub mod Closing
pub mod Reconcile
pub mod Sleep
pub mod Validation
