-- ===== src/Exec.antt =====
-- internal/ssh/exec.go: running one command on a connection.
pub mod Buffer
pub mod Quote
pub mod Deadline
pub mod Missing
pub mod Run
pub mod Clock
