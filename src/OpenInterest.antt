-- ===== src/OpenInterest.antt =====
-- src/contract/open_interest: the life of a loan.
pub mod Terms
pub mod Lending
pub mod Execute
pub mod Fund
pub mod Close
pub mod Repay
pub mod Liquidation
pub mod Liquidate
