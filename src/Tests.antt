-- ===== src/Tests.antt =====
-- Runs of the services on small tables, and instances of the theorems there.
mod Social
mod Votes
mod Accounts
mod Airdrops
mod Helpers
mod Nodes
mod Traces
mod Affiliates
mod Comments
mod Statistics
