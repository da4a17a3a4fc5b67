-- ===== src/Mcp/Bound.antt =====
-- internal/mcp/bound/bound.go: results within the byte budget of an MCP text result.
pub mod Json
pub mod Cursor
pub mod Preview
pub mod Fit
pub mod Pages
pub mod Respond
pub mod Metadata
