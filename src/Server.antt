-- ===== src/Server.antt =====
-- The MCP server of internal/mcp/server.go, and the loop of main.go that feeds it.
pub mod State
pub mod Tools
pub mod Dispatch
pub mod Loop
pub mod Replies
pub mod Reports
pub mod Safety
