-- ===== src/Proposals.antt =====
-- src/saga_agents/proposals: proposals and where they are kept.
pub mod Database
pub mod Store
pub mod Memory
pub mod TextCodec
