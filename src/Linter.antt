-- ===== src/Linter.antt =====
-- tools/flow_linter/linter.py: the flow graph and the five rules over exported flows.
pub mod Report
pub mod Graph
pub mod Search
pub mod Rules
pub mod Passing
