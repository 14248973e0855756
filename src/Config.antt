-- ===== src/Config.antt =====
-- internal/ssh/config.go: the OpenSSH client configuration, from its lines to one entry per alias.
pub mod Glob
pub mod Block
pub mod Settings
pub mod Resolve
pub mod Directive
pub mod Load
