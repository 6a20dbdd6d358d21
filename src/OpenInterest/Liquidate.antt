-- ===== src/OpenInterest/Liquidate.antt =====
-- src/contract/open_interest/liquidate.rs: the owner or the lender settles an expired loan.
pub mod Steps
pub mod Accounts
pub mod Settlement
pub mod Success
pub mod Rounds
use wasm_vault.Prelude.{
  ℕ, ◌-◌, String, Bool, true, false, not, ◌&&◌, List, [], ◌∷◌, ◌++◌, str_eq, ◌==◌, if◌then◌else◌,
  min,
}
use wasm_vault.Types.{Env, MessageInfo, CosmosMsg, Response, respond, Attribute, attr, text}
use wasm_vault.Errors.{Result, ok, err, panic, insufficient_balance, ◌>>=◌, ◌>>◌, fail_if, expect}
use wasm_vault.Host.{Host}
use wasm_vault.Storage.{Storage}
use wasm_vault.OpenInterest.Terms.{open_interest_attributes}
use wasm_vault.OpenInterest.Liquidation.{
  LiquidationState, CollectedFunds, load_liquidation_state, get_outstanding_amount, collect_funds,
  payout_message, liquidation_can_schedule_undelegations, schedule_undelegations,
  record_liquidation_undelegation_time, finalize_state, push_nonzero_attr,
}

-- `messages.push(payout_message(..))` where there is a payout
abbrev pub payout_messages : LiquidationState → ℕ → List CosmosMsg
payout_messages state payout_amount =
    if payout_amount == 0 then [] else payout_message state payout_amount ∷ []

abbrev pub liquidation_attributes :
    LiquidationState → MessageInfo → CollectedFunds → ℕ → ℕ → ℕ → ℕ → List Attribute
liquidation_attributes state info funds remaining payout_amount undelegated_amount left =
    push_nonzero_attr "outstanding_debt" left (
      push_nonzero_attr "undelegated_amount" undelegated_amount (
        push_nonzero_attr "rewards_claimed" funds.rewards_claimed (
          push_nonzero_attr "payout_amount" payout_amount (
            push_nonzero_attr "available_balance" funds.available (
              push_nonzero_attr "requested_amount" remaining (
                open_interest_attributes "liquidate_open_interest" state.open_interest
                ++ attr "lender" (text state.lender)
                  ∷ attr "liquidator" (text info.sender)
                  ∷ []))))))

module _ {M : Type 0} where
  -- The undelegations that may be scheduled now, their sum, and the state with their time.
  unfoldable pub undelegate_if_allowed :
      Host → Env → LiquidationState → ℕ → Storage M → Result (List CosmosMsg × ℕ × Storage M)
  unfolding record_liquidation_undelegation_time
  undelegate_if_allowed host env state left s = do
    allowed ← liquidation_can_schedule_undelegations host env s
    if allowed
        then (do
          (msgs, amount) ← schedule_undelegations host state left
          ok (msgs, amount, if amount == 0 then s else record_liquidation_undelegation_time env s))
        else ok ([], 0, s)

  -- `min` makes the source's `checked_sub(..).expect(..)` exact.
  unfoldable pub liquidate : Host → Env → MessageInfo → Storage M → Result (Response × Storage M)
  liquidate host env info s = do
    state ← load_liquidation_state host env info s
    remaining ← get_outstanding_amount state s
    funds ← collect_funds host env state remaining
    let payout_amount = min funds.available remaining
    let left = remaining - payout_amount
    fail_if (not (left == 0) && not (str_eq state.collateral_denom state.bonded_denom))
        (insufficient_balance state.collateral_denom funds.available remaining)
    (undelegate_msgs, undelegated_amount, s') ← undelegate_if_allowed host env state left s
    ok (
      respond
          (funds.reward_claim_messages ++ payout_messages state payout_amount ++ undelegate_msgs)
          (liquidation_attributes state info funds remaining payout_amount undelegated_amount left),
      finalize_state state left s',
    )
