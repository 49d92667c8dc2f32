-- ===== src/Airdrops.antt =====
-- The life of an airdrop: lib/airdrops/service/status-changer. A participant is new, then pending
-- (tokens reserved), waiting (a receipt is pushed to the blockchain) and received. The state
-- holds the ledger of accounts and the tables airdrops_users_external_data, airdrops_users,
-- airdrops_tokens and users_external.
pub mod State
pub mod Pending
pub mod Delivery
