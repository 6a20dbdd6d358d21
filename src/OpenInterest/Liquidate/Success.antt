-- ===== src/OpenInterest/Liquidate/Success.antt =====
-- When a liquidation closes the loan, src/contract/open_interest/liquidate.rs.
use wasm_vault.Prelude.{
  ℕ, ◌-◌, ◌^◌, ◌<◌, ◌≤◌, ◌≡◌, ◌⊎◌, inl, inr, String, Bool, Option, some, none, [], ◌++◌, min, arith,
  eq_iff,
}
use wasm_vault.Types.{Addr, Coin, OpenInterest, Env, MessageInfo, Response, respond}
use wasm_vault.Errors.{ok}
use wasm_vault.Uint.{try_u128, fits}
use wasm_vault.Host.{Host, answer}
use wasm_vault.Storage.{Storage}
use wasm_vault.Helpers.{require_owner_or_lender}
use wasm_vault.OpenInterest.Lending.{clear_active_lender}
use wasm_vault.OpenInterest.Liquidation.{
  LiquidationState, CollectedFunds, load_liquidation_state, get_outstanding_amount, collect_funds,
  claim_rewards, convert_amount, liquidation_can_schedule_undelegations, schedule_undelegations,
  finalize_state,
}
use wasm_vault.OpenInterest.Liquidate.{
  liquidate, payout_messages, undelegate_if_allowed, liquidation_attributes,
}
use wasm_vault.OpenInterest.Liquidate.Settlement.{IsClosed}
use wasm_vault.Invariant.Liquidations.{owed_or_collateral}

module _ {M : Type 0} (host : Host) (env : Env) (info : MessageInfo) (terms : OpenInterest)
    (lender : Addr) (s : Storage M) where
  abbrev loaded : String → LiquidationState
  loaded bonded = record {
    open_interest = terms;
    lender = lender;
    collateral_denom = terms.collateral.denom;
    contract_addr = env.contract_address;
    bonded_denom = bonded;
  }

  load_liquidation_state_of_expired :
      (owner : Addr) (expiry : ℕ) (bonded : String)
      → s.owner ≡ some owner
      → (info.sender ≡ owner) ⊎ (info.sender ≡ lender)
      → s.open_interest ≡ some (some terms)
      → s.lender ≡ some (some lender)
      → s.open_interest_expiry ≡ some (some expiry)
      → expiry ≤ env.time
      → host.query_bonded_denom ≡ answer bonded
      → load_liquidation_state host env info s ≡ ok (loaded bonded)
  unfolding load_liquidation_state require_owner_or_lender
  load_liquidation_state_of_expired owner expiry bonded o (inl caller) i l x le b =
      ground (arith, eq_iff info.sender owner)
  load_liquidation_state_of_expired owner expiry bonded o (inr caller) i l x le b =
      ground (arith, eq_iff info.sender owner, eq_iff info.sender lender)

  undelegate_nothing :
      (state : LiquidationState) (left : ℕ) (allowed : Bool)
      → left ≡ 0
      → liquidation_can_schedule_undelegations host env s ≡ ok allowed
      → undelegate_if_allowed host env state left s ≡ ok ([], 0, s)
  unfolding undelegate_if_allowed schedule_undelegations
  undelegate_nothing state left allowed z h = ground arith

  abbrev untouched : ℕ → CollectedFunds
  untouched available = record {
    available = available;
    rewards_claimed = 0;
    reward_claim_messages = [];
  }

  collect_funds_of_covered :
      (bonded : String) (balance : Coin) (owed : ℕ)
      → host.query_balance env.contract_address terms.collateral.denom ≡ answer balance
      → owed ≤ balance.amount
      → balance.amount < 2 ^ 128
      → collect_funds host env (loaded bonded) owed ≡ ok (untouched balance.amount)
  unfolding collect_funds claim_rewards convert_amount try_u128 fits
  collect_funds_of_covered bonded balance owed q covers fit = ground arith

  get_outstanding_amount_of_lt :
      (bonded : String) (debt : Option Coin)
      → s.outstanding_debt ≡ some debt
      → owed_or_collateral debt terms < 2 ^ 128
      → get_outstanding_amount (loaded bonded) s ≡ ok (owed_or_collateral debt terms)
  unfolding get_outstanding_amount convert_amount try_u128 fits
  get_outstanding_amount_of_lt bonded none d fit = ground arith
  get_outstanding_amount_of_lt bonded (some debt) d fit = ground arith

  -- Once the expiry has passed, the owner and the lender can each liquidate a loan that the balance
  -- covers, where the balance fits 128 bits and the delay since the last undelegations is a time that
  -- the chain can hold: the loan is closed.
  pub liquidate_of_covered :
      (owner : Addr) (expiry : ℕ) (bonded : String) (debt : Option Coin) (balance : Coin)
      (allowed : Bool)
      → s.owner ≡ some owner
      → (info.sender ≡ owner) ⊎ (info.sender ≡ lender)
      → s.open_interest ≡ some (some terms)
      → s.lender ≡ some (some lender)
      → s.open_interest_expiry ≡ some (some expiry)
      → expiry ≤ env.time
      → host.query_bonded_denom ≡ answer bonded
      → s.outstanding_debt ≡ some debt
      → host.query_balance env.contract_address terms.collateral.denom ≡ answer balance
      → owed_or_collateral debt terms ≤ balance.amount
      → balance.amount < 2 ^ 128
      → liquidation_can_schedule_undelegations host env s ≡ ok allowed
      → (r : Response) × (s' : Storage M) × (liquidate host env info s ≡ ok (r, s')) × IsClosed s'
  unfolding liquidate finalize_state clear_active_lender
  liquidate_of_covered owner expiry bonded debt balance allowed o caller i l x le b d q covers fit
        can =
      let owed = owed_or_collateral debt terms in
      let paid = min balance.amount owed in
      let state = loaded bonded in
      (
        respond ([] ++ payout_messages state paid ++ []) (
            liquidation_attributes state info (untouched balance.amount) owed paid 0 (owed - paid)),
        finalize_state state (owed - paid) s,
        ground (
          arith,
          load_liquidation_state_of_expired owner expiry bonded o caller i l x le b,
          get_outstanding_amount_of_lt bonded debt d,
          collect_funds_of_covered bonded balance owed q covers fit,
          undelegate_nothing state (owed - paid) allowed,
        ),
        ground arith,
      )
