-- ===== src/Tests.antt =====
-- Concrete inputs, and the theorems applied to them.
mod Fixtures
mod Chain
mod Audit
mod Pii
mod Agents
mod Campaigns
mod Flows
mod Stores
mod Queries
mod Retrieval
mod Sessions
mod Tools
mod Turns
mod Points
mod Tables
mod Speaking
mod Streams
mod Plugins
mod Savings
