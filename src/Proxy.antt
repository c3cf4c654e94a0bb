-- ===== src/Proxy.antt =====
-- The proxy (internal/proxy): its decisions, its activity tracker, the demand patches and the hold.
pub mod Decision
pub mod Tracker
pub mod Demand
pub mod Hold
pub mod Cache
pub mod Handler
pub mod Tunnels
pub mod Request
pub mod Forward
pub mod Buffer
