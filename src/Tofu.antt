-- ===== src/Tofu.antt =====
-- What internal/tofu decides from files and streams of documents.
pub mod Approval
pub mod Reconcile
pub mod Transcript
pub mod Origins
pub mod Canonical
pub mod Scenarios
pub mod Pipeline
pub mod Drift
pub mod Compare
pub mod Table
pub mod Sources
