-- ===== src/Mcp.antt =====
-- saap/core/mcp.py and saap/langflow_components/logic/mcp_toolkit.py. Connections and what stands
-- behind them are parameters: how one is opened, what tools it lists, what a call of it does.
pub mod Pool
pub mod Names
pub mod AllowList
pub mod Toolkit
