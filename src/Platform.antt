-- ===== src/Platform.antt =====
-- internal/platform: the democloud control plane, its state and its authorization decisions.
pub mod Model
pub mod Store
pub mod Authz
