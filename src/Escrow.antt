-- ===== src/Escrow.antt =====
-- Where the money of the counter offers goes: the coins in the messages of src/contract/counter_offer
-- and src/contract/open_interest, counted in one denom.
pub mod Counting
pub mod Offers
pub mod Endings
pub mod Roundtrip
