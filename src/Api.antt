-- ===== src/Api.antt =====
-- internal/api/server.go and context.go: the control plane over HTTP.
pub mod Http
pub mod Targets
pub mod Answers
pub mod Callers
pub mod Resources
pub mod Server
