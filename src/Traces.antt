-- ===== src/Traces.antt =====
-- The traces of the blockchain: lib/blockchain-traces.
pub mod State
pub mod Processor
pub mod Processors
pub mod Chain
pub mod Sync
