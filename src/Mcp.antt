-- ===== src/Mcp.antt =====
-- mcp_reconciler.go: the MCP server's configuration, its objects and the order of its steps.
pub mod Config
pub mod ConfigLaws
pub mod Server
pub mod Sequence
