-- ===== src/OpenInterest/Liquidation.antt =====
-- src/contract/open_interest/helpers.rs: the parts of a liquidation.
pub mod Undelegations
pub mod Throttle
use wasm_vault.Prelude.{
  ℕ, zero, ◌+◌, ◌-◌, String, Bool, true, not, ◌&&◌, Option, none, some, List, [], ◌∷◌, ◌++◌, map,
  str_eq, ◌==◌, ltb, leb, if◌then◌else◌, flatten, min,
}
use wasm_vault.Types.{
  Addr, Coin, OpenInterest, Env, MessageInfo, CosmosMsg, bank_send, staking_undelegate,
  withdraw_delegator_reward, Attribute, attr, num, default_liquidation_unbonding_seconds,
}
use wasm_vault.Errors.{
  Result, ok, err, panic, no_open_interest, no_lender, open_interest_not_expired,
  liquidation_amount_overflow, ◌>>=◌, ◌>>◌, fail_if, ok_or, expect,
}
use wasm_vault.Uint.{fits, try_u128, add_u256}
use wasm_vault.Host.{Host, Delegation, try}
use wasm_vault.Storage.{Storage, load}
use wasm_vault.Helpers.{require_owner_or_lender, query_staking_rewards}
use wasm_vault.OpenInterest.Lending.{clear_active_lender}

pub record LiquidationState : Type 0 where
  pub open_interest : OpenInterest
  pub lender : Addr
  pub collateral_denom : String
  pub contract_addr : Addr
  pub bonded_denom : String

pub record CollectedFunds : Type 0 where
  pub available : ℕ
  pub rewards_claimed : ℕ
  pub reward_claim_messages : List CosmosMsg

unfoldable pub convert_amount : ℕ → String → Result ℕ
convert_amount amount denom = ok_or (try_u128 amount) (liquidation_amount_overflow denom amount)

abbrev pub duration_or_default : Option ℕ → ℕ
duration_or_default none = default_liquidation_unbonding_seconds
duration_or_default (some duration) = duration

abbrev pub after_delay : Host → Env → ℕ → Option ℕ → Result Bool
after_delay host env duration none = ok true
after_delay host env duration (some last_time) = do
  next_allowed ← host.plus_seconds last_time duration
  ok (not (ltb env.time next_allowed))

module _ {M : Type 0} where
  unfoldable pub load_liquidation_state :
      Host → Env → MessageInfo → Storage M → Result LiquidationState
  load_liquidation_state host env info s = do
    require_owner_or_lender s info
    open_interest ← ok_or (flatten s.open_interest) no_open_interest
    lender ← ok_or (flatten s.lender) no_lender
    stored ← load s.open_interest_expiry
    expiry ← expect stored
    fail_if (ltb env.time expiry) open_interest_not_expired
    bonded_denom ← try host.query_bonded_denom
    ok (record {
      open_interest = open_interest;
      lender = lender;
      collateral_denom = open_interest.collateral.denom;
      contract_addr = env.contract_address;
      bonded_denom = bonded_denom;
    })

  unfoldable pub get_outstanding_amount : LiquidationState → Storage M → Result ℕ
  unfolding convert_amount
  get_outstanding_amount state s = elim (flatten s.outstanding_debt) [
    | some debt ↦ convert_amount debt.amount state.collateral_denom
    | none ↦ convert_amount state.open_interest.collateral.amount state.collateral_denom
  ]

  unfoldable pub liquidation_can_schedule_undelegations : Host → Env → Storage M → Result Bool
  liquidation_can_schedule_undelegations host env s =
      let duration = duration_or_default s.liquidation_unbonding_duration in
      if duration == 0
      then ok true
      else after_delay host env duration (flatten s.last_liquidation_unbonding)

  unfoldable pub record_liquidation_undelegation_time : Env → Storage M → Storage M
  record_liquidation_undelegation_time env s = record s {
    last_liquidation_unbonding = some (some env.time);
  }

  unfoldable pub finalize_state : LiquidationState → ℕ → Storage M → Storage M
  unfolding clear_active_lender
  finalize_state state remaining s =
      if remaining == 0
      then clear_active_lender
          (record s { outstanding_debt = some none; open_interest = some none })
      else record s {
        outstanding_debt =
            some (some (record { amount = remaining; denom = state.collateral_denom }));
      }

-- The rewards that a liquidation claims, and the messages that claim them.
unfoldable pub claim_rewards :
    Host → Env → LiquidationState → ℕ → ℕ → Result (ℕ × ℕ × List CosmosMsg)
claim_rewards host env state balance remaining =
    if str_eq state.collateral_denom state.bonded_denom && ltb balance remaining
    then (do
      delegations ← try (host.query_all_delegations state.contract_addr)
      claimable_rewards ← query_staking_rewards host env
      let messages =
          if claimable_rewards == 0
          then []
          else map (λ (d : Delegation). withdraw_delegator_reward d.validator) delegations
      -- the `checked_add(..).expect(..)` panics out of range, as a plain `+` does
      total_available ← add_u256 balance claimable_rewards
      ok (total_available, claimable_rewards, messages))
    else ok (balance, 0, [])

unfoldable pub collect_funds : Host → Env → LiquidationState → ℕ → Result CollectedFunds
unfolding claim_rewards convert_amount
collect_funds host env state remaining = do
  balance ← try (host.query_balance state.contract_addr state.collateral_denom)
  (total_available, claimed, messages) ← claim_rewards host env state balance.amount remaining
  available ← convert_amount total_available state.collateral_denom
  rewards_claimed ← convert_amount claimed state.collateral_denom
  ok (record {
    available = available;
    rewards_claimed = rewards_claimed;
    reward_claim_messages = messages;
  })

unfoldable pub payout_message : LiquidationState → ℕ → CosmosMsg
payout_message state payout_amount =
    bank_send state.lender (record { amount = payout_amount; denom = state.collateral_denom } ∷ [])

-- The loop over the delegations, from what is left to undelegate and what has been undelegated.
unfoldable pub undelegate_from : String → List Delegation → ℕ → ℕ → Result (List CosmosMsg × ℕ)
undelegate_from denom [] remaining total = ok ([], total)
undelegate_from denom (delegation ∷ rest) remaining total =
    let stake_amount = delegation.amount.amount in
    let amount = min stake_amount remaining in
    let skip = undelegate_from denom rest remaining total in
    let go : Result (List CosmosMsg × ℕ) = (do
      coin_amount ← expect (try_u128 amount)
      total' ← add_u256 total amount
      (messages, undelegated) ← undelegate_from denom rest (remaining - amount) total'
      let coin : Coin = record { amount = coin_amount; denom = denom }
      ok (staking_undelegate delegation.validator coin ∷ messages, undelegated)) in
    if remaining == 0 then ok ([], total) else if stake_amount == 0 then skip else go

unfoldable pub schedule_undelegations : Host → LiquidationState → ℕ → Result (List CosmosMsg × ℕ)
schedule_undelegations host state remaining = if remaining == 0 then ok ([], 0) else do
  delegations ← try (host.query_all_delegations state.contract_addr)
  (messages, total) ← undelegate_from state.collateral_denom delegations remaining 0
  total_u128 ← expect (try_u128 total)
  ok (messages, total_u128)

abbrev pub push_nonzero_attr : String → ℕ → List Attribute → List Attribute
push_nonzero_attr key value attrs = if value == 0 then attrs else attrs ++ attr key (num value) ∷ []
