-- ===== src/CounterOffer.antt =====
-- src/contract/counter_offer: offers of less liquidity, their escrow and their fate.
pub mod Helpers
pub mod Propose
pub mod Accept
pub mod Cancel
