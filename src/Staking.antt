-- ===== src/Staking.antt =====
-- src/contract/staking: what the owner may do with the stake.
pub mod Delegate
pub mod Undelegate
pub mod Redelegate
pub mod Claim
pub mod Bounds
