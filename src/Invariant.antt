-- ===== src/Invariant.antt =====
-- The invariant of a vault.
pub mod Defs
pub mod Escrow
pub mod Loans
pub mod Offers
pub mod Liquidations
pub mod Proposals
pub mod Histories
