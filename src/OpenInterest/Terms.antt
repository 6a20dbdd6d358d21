-- ===== src/OpenInterest/Terms.antt =====
-- src/contract/open_interest/helpers.rs: the checks of new terms, and the amounts of a repayment.
pub mod Repayment
pub mod Collateral
pub mod Validity
use wasm_vault.Prelude.{
  ℕ, ◌-◌, String, Bool, not, Option, none, some, List, [], ◌∷◌, str_eq, ◌==◌, leb, if◌then◌else◌,
}
use wasm_vault.BTreeMap
use wasm_vault.BTreeMap.{BTreeMap}
use wasm_vault.Types.{Coin, OpenInterest, Env, Attribute, attr, text, num}
use wasm_vault.Errors.{
  Result, ok, err, panic, std, msg, insufficient_balance, invalid_coin_amount, invalid_coin_denom,
  invalid_expiry_duration, repayment_amount_overflow, ◌>>=◌, ◌>>◌, fail_if, ok_or, expect,
}
use wasm_vault.Uint.{checked_add, try_u128}
use wasm_vault.Host.{Host, try}
use wasm_vault.Helpers.{minimum_collateral_lock_for_denom}

-- `uint256_to_uint128`: it panics where the value does not fit
unfoldable pub uint256_to_uint128 : ℕ → Result ℕ
uint256_to_uint128 value = expect (try_u128 value)

unfoldable pub validate_coin : Coin → String → Result (Unit {0})
validate_coin coin field = do
  fail_if (coin.amount == 0) (invalid_coin_amount field)
  fail_if (str_eq coin.denom "") (invalid_coin_denom field)

unfoldable pub query_available_balance : Host → Env → String → Result ℕ
query_available_balance host env denom = do
  balance ← try (host.query_balance env.contract_address denom)
  ok balance.amount

-- The last test and the error of `ensure_collateral_available`.
unfoldable pub cover_by_stake : String → ℕ → ℕ → ℕ → Result (Unit {0})
unfolding uint256_to_uint128
cover_by_stake denom requested available required_lock = do
  let staking_coverage = requested - required_lock
  effective_balance ← checked_add available staking_coverage
  if leb requested effective_balance then ok tt else do
    available_u128 ← uint256_to_uint128 effective_balance
    requested_u128 ← uint256_to_uint128 requested
    err (insufficient_balance denom available_u128 requested_u128)

unfoldable pub ensure_collateral_available : Host → Env → OpenInterest → Result (Unit {0})
ensure_collateral_available host env open_interest = do
  let denom = open_interest.collateral.denom
  let requested = open_interest.collateral.amount
  available ← query_available_balance host env denom
  if leb requested available then ok tt else do
    required_lock ← minimum_collateral_lock_for_denom host env denom (some open_interest)
    if leb required_lock available
        then ok tt
        else cover_by_stake denom requested available required_lock

unfoldable pub accumulate_repayment_requirement : BTreeMap ℕ → Coin → Result (BTreeMap ℕ)
accumulate_repayment_requirement requirements coin = elim (BTreeMap.get coin.denom requirements) [
  | none ↦ ok (BTreeMap.insert coin.denom coin.amount requirements)
  | some entry_val ↦ elim (checked_add entry_val coin.amount) [
    | ok sum ↦ ok (BTreeMap.insert coin.denom sum requirements)
    | err _ ↦ err (std (msg "repayment amount overflow"))
    | panic ↦ panic
  ]
]

unfoldable pub repayment_requirements : OpenInterest → Result (BTreeMap ℕ)
repayment_requirements open_interest = do
  requirements ← accumulate_repayment_requirement [] open_interest.liquidity_coin
  accumulate_repayment_requirement requirements open_interest.interest_coin

-- A denom, its amount as a `Uint256` and as a `Uint128`.
pub record RepaymentAmount : Type 0 where
  pub denom : String
  pub requested_amount : ℕ
  pub coin_amount : ℕ

unfoldable pub convert_requirements : BTreeMap ℕ → Result (List RepaymentAmount)
convert_requirements [] = ok []
convert_requirements ((denom, amount) ∷ rest) = do
  coin_amount ← ok_or (try_u128 amount) (repayment_amount_overflow denom amount)
  converted ← convert_requirements rest
  ok (record { denom = denom; requested_amount = amount; coin_amount = coin_amount } ∷ converted)

unfoldable pub build_repayment_amounts : OpenInterest → Result (List RepaymentAmount)
build_repayment_amounts open_interest = do
  requirements ← repayment_requirements open_interest
  convert_requirements requirements

unfoldable pub validate_open_interest : Host → Env → OpenInterest → Result (Unit {0})
unfolding validate_coin
validate_open_interest host env open_interest = do
  validate_coin open_interest.liquidity_coin "liquidity_coin"
  validate_coin open_interest.interest_coin "interest_coin"
  validate_coin open_interest.collateral "collateral"
  fail_if (open_interest.expiry_duration == 0) invalid_expiry_duration
  build_repayment_amounts open_interest
  ensure_collateral_available host env open_interest

abbrev pub open_interest_attributes : String → OpenInterest → List Attribute
open_interest_attributes action open_interest =
    attr "action" (text action)
    ∷ attr "liquidity_denom" (text open_interest.liquidity_coin.denom)
    ∷ attr "liquidity_amount" (num open_interest.liquidity_coin.amount)
    ∷ attr "interest_denom" (text open_interest.interest_coin.denom)
    ∷ attr "interest_amount" (num open_interest.interest_coin.amount)
    ∷ attr "collateral_denom" (text open_interest.collateral.denom)
    ∷ attr "collateral_amount" (num open_interest.collateral.amount)
    ∷ attr "expiry_duration" (num open_interest.expiry_duration)
    ∷ []
