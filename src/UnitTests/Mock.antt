-- ===== src/UnitTests/Mock.antt =====
-- What the unit tests set up: src/contract/open_interest/test_helpers.rs,
-- src/contract/counter_offer/test_helpers.rs, and cosmwasm_std's mock of the chain, which answers from
-- what a test has stored in it. `addr_make` gives an address for a name; here the name stands for it.
use wasm_vault.Prelude.{
  ℕ, ◌+◌, ◌*◌, ◌/◌, ◌^◌, String, Option, none, some, List, [], ◌∷◌, str_eq, ltb, if◌then◌else◌,
}
use wasm_vault.Types.{Addr, Coin, OpenInterest, Env, MessageInfo, Response}
use wasm_vault.Errors.{Result, ok, panic}
use wasm_vault.Host.{Host, Delegation, DecCoin, answer}
use wasm_vault.Tests.Fixtures.{Vault, blank}

-- The parts of `MockQuerier` that the tests set, for the address of `mock_env`.
pub record Mock : Type 0 where
  pub bank : List Coin
  pub bonded_denom : String
  pub validators : List String
  pub delegations : List Delegation
  pub rewards : List DecCoin

-- `mock_dependencies`. The bonded denom of a fresh querier is the library's; "ucosm" stands for it.
abbrev pub mock_dependencies : Mock
mock_dependencies = record {
  bank = [];
  bonded_denom = "ucosm";
  validators = [];
  delegations = [];
  rewards = [];
}

abbrev balance_in : String → List Coin → ℕ
balance_in denom [] = 0
balance_in denom (coin ∷ coins) =
    if str_eq coin.denom denom then coin.amount else balance_in denom coins

abbrev delegation_with : String → List Delegation → Option Delegation
delegation_with validator [] = none
delegation_with validator (d ∷ ds) =
    if str_eq d.validator validator then some d else delegation_with validator ds

abbrev validator_named : String → List String → Option String
validator_named validator [] = none
validator_named validator (v ∷ vs) =
    if str_eq v validator then some v else validator_named validator vs

abbrev pub querier : Mock → Host
querier mock = record {
  addr_validate = λ a. answer a;
  query_bonded_denom = answer mock.bonded_denom;
  query_balance = λ a denom. answer (record { amount = balance_in denom mock.bank; denom = denom });
  query_all_delegations = λ a. answer mock.delegations;
  query_delegation = λ a validator. answer (delegation_with validator mock.delegations);
  query_validator = λ validator. answer (validator_named validator mock.validators);
  query_delegation_total_rewards = λ a. answer mock.rewards;
  to_uint_floor = λ atomics. atomics / 10 ^ 18;
  plus_seconds =
      λ t n. if ltb (t + n * 1_000_000_000) (2 ^ 64) then ok (t + n * 1_000_000_000) else panic;
  to_json_binary = λ response. answer response.message;
}

-- `mock_env`
abbrev pub mock_env : Env
mock_env = record { time = 1_571_797_419_879_305_533; contract_address = "cosmos2contract" }

abbrev pub message_info : Addr → List Coin → MessageInfo
message_info sender funds = record { sender = sender; funds = funds }

abbrev pub setup : Vault → Addr → Vault
setup s owner = record s {
  owner = some owner;
  lender = some none;
  outstanding_debt = some none;
  open_interest_expiry = some none;
  open_interest = some none;
}

abbrev pub setup_active_open_interest : Vault → Addr → Addr → OpenInterest → Vault
setup_active_open_interest s owner lender open_interest = record (setup s owner) {
  open_interest = some (some open_interest);
  lender = some (some lender);
  open_interest_expiry = some (some 0);
}

abbrev pub sample_coin : ℕ → String → Coin
sample_coin amount denom = record { amount = amount; denom = denom }

abbrev pub build_open_interest : Coin → Coin → ℕ → Coin → OpenInterest
build_open_interest liquidity_coin interest_coin expiry_duration collateral = record {
  liquidity_coin = liquidity_coin;
  interest_coin = interest_coin;
  expiry_duration = expiry_duration;
  collateral = collateral;
}

-- The request that the tests of the counter offers start from, and the storage with it.
abbrev pub active : OpenInterest
active =
    build_open_interest (sample_coin 1000 "uusd") (sample_coin 50 "ujuno") 86_400
      (sample_coin 2000 "uatom")

abbrev pub setup_open_interest : Vault → Addr → Vault
setup_open_interest s owner = record s {
  owner = some owner;
  outstanding_debt = some none;
  lender = some none;
  open_interest = some (some active);
  counter_offers = [];
}

abbrev pub storage : Vault
storage = blank

-- What a test gives: the response with the state, or an error.
abbrev pub Outcome : Type 0
Outcome = Result (Response × Vault)
