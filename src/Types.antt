-- ===== src/Types.antt =====
-- src/types.rs and src/msg.rs: the terms of a loan, the messages that the contract answers, and the
-- cosmwasm_std values that it reads (coins, the block, the sender) and sends (messages, attributes).
-- A `Uint128`, `Uint256` or `u64` is its number; src/state.rs gives the constants.
pub mod Equality
use wasm_vault.Prelude.{ℕ, ◌*◌, String, Bool, ◌&&◌, Option, List, [], ◌++◌, str_eq, ◌==◌, is_empty}

abbrev pub Addr : Type 0
Addr = String

pub record Coin : Type 0 where
  pub amount : ℕ
  pub denom : String

pub record OpenInterest : Type 0 where
  pub liquidity_coin : Coin
  pub interest_coin : Coin
  pub expiry_duration : ℕ
  pub collateral : Coin

pub record CounterOffer : Type 0 where
  pub proposer : String
  pub open_interest : OpenInterest

pub record InfoResponse : Type 0 where
  pub message : String
  pub owner : String
  pub lender : Option String
  pub open_interest : Option OpenInterest
  pub counter_offers : Option (List CounterOffer)

-- The derived `==` on the structs.
abbrev pub coin_eq : Coin → Coin → Bool
coin_eq a b = a.amount == b.amount && str_eq a.denom b.denom

abbrev pub open_interest_eq : OpenInterest → OpenInterest → Bool
open_interest_eq a b =
    coin_eq a.liquidity_coin b.liquidity_coin
    && coin_eq a.interest_coin b.interest_coin
    && a.expiry_duration == b.expiry_duration
    && coin_eq a.collateral b.collateral

pub record InstantiateMsg : Type 0 where
  pub owner : Option String
  pub liquidation_unbonding_duration : Option ℕ

-- A vote option goes through the contract unread: it is kept by its name on the wire.
abbrev pub VoteOption : Type 0
VoteOption = String

pub record WeightedVoteOption : Type 0 where
  pub option : VoteOption
  pub weight : ℕ

pub data ExecuteMsg : Type 0 where
  noop : ExecuteMsg
  delegate : (validator : String) (amount : ℕ) → ExecuteMsg
  undelegate : (validator : String) (amount : ℕ) → ExecuteMsg
  redelegate : (src_validator dst_validator : String) (amount : ℕ) → ExecuteMsg
  claim_delegator_rewards : ExecuteMsg
  withdraw : (denom : String) (amount : ℕ) (recipient : Option String) → ExecuteMsg
  vote : (proposal_id : ℕ) (option : VoteOption) → ExecuteMsg
  vote_weighted : (proposal_id : ℕ) (options : List WeightedVoteOption) → ExecuteMsg
  transfer_ownership : (new_owner : String) → ExecuteMsg
  open_interest : OpenInterest → ExecuteMsg
  fund_open_interest : OpenInterest → ExecuteMsg
  propose_counter_offer : OpenInterest → ExecuteMsg
  accept_counter_offer : (proposer : String) (open_interest : OpenInterest) → ExecuteMsg
  cancel_counter_offer : ExecuteMsg
  close_open_interest : ExecuteMsg
  repay_open_interest : ExecuteMsg
  liquidate_open_interest : ExecuteMsg

pub data QueryMsg : Type 0 where
  info : QueryMsg

-- The block time is in nanoseconds.
pub record Env : Type 0 where
  pub time : ℕ
  pub contract_address : Addr

pub record MessageInfo : Type 0 where
  pub sender : Addr
  pub funds : List Coin

pub data CosmosMsg : Type 0 where
  bank_send : (to_address : String) (amount : List Coin) → CosmosMsg
  staking_delegate : (validator : String) (amount : Coin) → CosmosMsg
  staking_undelegate : (validator : String) (amount : Coin) → CosmosMsg
  staking_redelegate : (src_validator dst_validator : String) (amount : Coin) → CosmosMsg
  withdraw_delegator_reward : (validator : String) → CosmosMsg
  gov_vote : (proposal_id : ℕ) (option : VoteOption) → CosmosMsg
  gov_vote_weighted : (proposal_id : ℕ) (options : List WeightedVoteOption) → CosmosMsg

-- `num n` is the text that `n.to_string()` gives.
pub data AttrValue : Type 0 where
  text : String → AttrValue
  num : ℕ → AttrValue

pub record Attribute : Type 0 where
  pub key : String
  pub value : AttrValue

abbrev pub attr : String → AttrValue → Attribute
attr key value = record { key = key; value = value }

pub record Response : Type 0 where
  pub messages : List CosmosMsg
  pub attributes : List Attribute

abbrev pub respond : List CosmosMsg → List Attribute → Response
respond messages attributes = record { messages = messages; attributes = attributes }

abbrev pub max_counter_offers : ℕ
max_counter_offers = 255

abbrev pub default_liquidation_unbonding_seconds : ℕ
default_liquidation_unbonding_seconds = 21 * 24 * 60 * 60

abbrev pub max_liquidation_unbonding_seconds : ℕ
max_liquidation_unbonding_seconds = 30 * 24 * 60 * 60
