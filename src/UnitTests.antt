-- ===== src/UnitTests.antt =====
-- The repository's own unit tests, the `tests` modules within src/contract, run on the model. A test is
-- defined as what its last call gives, on the storage and the querier that it sets up; what it asserts
-- stands below it.
mod Mock
mod Withdrawals
mod Redelegations
mod Proposals
mod Capacity
mod Acceptances
mod Messages
mod Closings
mod Delegations
mod Undelegations
mod Fundings
mod Repayments
mod Liquidations
mod Cancellations
mod Openings
mod Ownership
mod Queries
mod Votes
