-- ===== src/Tests.antt =====
-- Concrete runs, and each theorem at an input that meets its hypotheses.
pub mod Fixtures
mod Offers
mod Endings
mod Assets
mod Stakes
mod Loans
mod Histories
mod Ledger
mod Agreement
mod Success
