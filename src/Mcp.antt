-- ===== src/Mcp.antt =====
-- internal/mcp: what the MCP server returns to its caller.
pub mod Bound
