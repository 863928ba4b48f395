-- ===== src/ClientAgent.antt =====
-- The Client Agent (src/clientagent).
pub mod ParentingRule
mod Examples
