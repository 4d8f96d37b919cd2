-- ===== src/Mcp.antt =====
-- packages/extensions/mcp: the tasks of the MCP extension.
pub mod TaskStore
