-- ===== src/Lib.antt =====
-- A model of wasm_vault, a CosmWasm contract in Rust: a vault of one owner, who stakes its assets, asks
-- for a loan against a collateral, and repays it or has it liquidated.
--
-- The parts and how they interact. `execute` (src/contract/execute.rs) hands each message to one
-- handler. The handlers share the items of src/state.rs: an open interest (the terms of a request or
-- of a loan), its lender, its expiry, the counter offers on a request, and an outstanding debt. While
-- there is no lender the debt is the escrow of the counter offers; once there is one it is what a
-- liquidation has left unpaid. A handler returns messages for the chain (payments, delegations, votes)
-- and attributes, or an error. Any failure undoes the whole transaction.
--
-- The files, with the code that each models:
--   Types: src/types.rs, src/msg.rs, the constants of src/state.rs, and the messages of cosmwasm_std
--     that the contract sends.
--   Errors: src/error.rs. `Result` has a third constructor for a panic, which aborts the transaction.
--   Uint: the bounds of u8, Uint128 and Uint256, written out over the natural numbers.
--   Host: what the contract asks of the chain, a record of functions that every handler takes.
--   Storage: src/state.rs. An `Item` is an option, as nothing may have been saved; the `Map` of the
--     counter offers is the interface `OfferMap`, with the laws of an ordered map.
--   BTreeMap: the standard library's map, as entries in ascending order of the keys.
--   Helpers: src/helpers.rs; Helpers/Owner and Helpers/Lock prove what it answers.
--   OpenInterest: src/contract/open_interest. Terms, Lending and Liquidation are helpers.rs; Execute,
--     Fund, Close, Repay and Liquidate are the handlers of the same names; what lies below them proves.
--   CounterOffer: src/contract/counter_offer: Helpers, Propose, Accept, Cancel.
--   Staking: src/contract/staking: Delegate, Undelegate, Redelegate, Claim; Bounds and
--     Delegate/Escrow prove.
--   Withdraw, Vote, Transfer, Instantiate, Query: the files of src/contract with these names.
--   Execute: the dispatch, and sequences of calls (`run`) in which a failed call changes nothing.
--   Invariant: the predicate `IsConsistent` on the stored state, operation by operation.
--   Lifecycle: an abstract machine of four stages, the liquidations of one loan in a row, and the delay
--     between those that undelegate.
--   Agreement: what the messages promise, as a relation between abstract states (nothing; a request with
--     a book of offers; a loan), in which the offers are a function of the proposer.
--   Escrow: where the coins of the counter offers go, by counting what is sent in a denom.
--   Ledger: the vault among its coins, in a world where anyone calls it and coins arrive: what the chain
--     does with the funds of a message before a handler runs and with its response after.
--   Bounds: the machine-width bounds on a call, and the handlers within them.
--   Tests: a concrete chain and concrete vaults, and runs on them.
--   UnitTests: the unit tests within the files of src/contract, each as a run of the model on the storage
--     and the answers of the chain that the test sets up; UnitTests/Mock has the test helpers.
-- In each, a function of the source has its own name, and a part of a function, such as the body of a
-- loop, has a name of its own.
--
-- Bounds. The amounts are natural numbers: Uint256 addition fails (checked_add) or panics (`+`) at
-- 2^256, a conversion to Uint128 fails at 2^128, and the count of offers panics at 256. The amounts of
-- a message are not bounded from above, so the theorems hold for those that fit their type. Every loop
-- is recursion on the list that the source iterates over, so there is no fuel.
--
-- What is a parameter: the chain (`Host`), with the address validation, the queries, the addition of
-- seconds to a time, the rounding of a decimal and the JSON encoder; and the stored map (`OfferMap`).
-- What a handler sees of the balances is what the chain answers; Ledger adds the coins themselves and
-- takes the chain to answer truthfully. In Ledger a payment that is not covered undoes the transaction;
-- what the staking module pays out is an argument.
-- What is not modelled: serialisation, the events of the chain, gas, the staking module and its refusals,
-- the schema generator, the wrapper CwTemplateContract, the integration tests, and of the unit tests
-- those of src/state.rs, which read back what the storage library saved.
pub mod Prelude
pub mod BTreeMap
pub mod Types
pub mod Errors
pub mod Uint
pub mod Host
pub mod Storage
pub mod Helpers
pub mod OpenInterest
pub mod CounterOffer
pub mod Staking
pub mod Withdraw
pub mod Vote
pub mod Transfer
pub mod Instantiate
pub mod Query
pub mod Execute
pub mod Invariant
pub mod Escrow
pub mod Lifecycle
pub mod Ledger
pub mod Bounds
pub mod Agreement
pub mod Tests
pub mod UnitTests
