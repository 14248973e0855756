-- ===== src/Login.antt =====
-- How a connection is made, trusted and authenticated: internal/ssh/hostkey.go, internal/ssh/auth.go,
-- internal/ssh/proxy.go, and the dialing of internal/ssh/connection.go.
pub mod Agent
pub mod HostKey
pub mod Auth
pub mod Target
pub mod Proxy
pub mod Dial
