-- ===== src/Invariant/Liquidations.antt =====
-- The invariant under a liquidation, in full or in part.
use wasm_vault.Prelude.{ℕ, ◌≡◌, ◌-◌, Option, some, none, min, flatten, arith, List}
use wasm_vault.Types.{Coin, OpenInterest, Env, MessageInfo, Response, CosmosMsg}
use wasm_vault.Errors.{ok}
use wasm_vault.Uint.{try_u128}
use wasm_vault.Host.{Host}
use wasm_vault.Storage.{OfferMap, Storage}
use wasm_vault.OpenInterest.Liquidation.{LiquidationState, get_outstanding_amount, finalize_state}
use wasm_vault.OpenInterest.Liquidate.{liquidate, undelegate_if_allowed}
use wasm_vault.OpenInterest.Liquidate.Steps.{liquidate-IsSettled, load_liquidation_state-IsExpired}
use wasm_vault.Invariant.Defs.{IsConsistent}

-- What a lender is owed: the debt that is left, or the whole collateral.
abbrev pub owed_or_collateral : Option Coin → OpenInterest → ℕ
owed_or_collateral none terms = terms.collateral.amount
owed_or_collateral (some debt) terms = debt.amount

module _ {M : Type 0} where
  -- An undelegation writes nothing but its time.
  pub undelegate_if_allowed-middle :
      (host : Host) (env : Env) (state : LiquidationState) (left : ℕ) (s : Storage M)
      (msgs : List CosmosMsg) (amount : ℕ) (middle : Storage M)
      → undelegate_if_allowed host env state left s ≡ ok (msgs, amount, middle)
      → middle ≡ record s { last_liquidation_unbonding = middle.last_liquidation_unbonding }
  unfolding undelegate_if_allowed
  undelegate_if_allowed-middle host env state left s msgs amount middle h = ground arith

  pub get_outstanding_amount-value :
      (state : LiquidationState) (s : Storage M) (remaining : ℕ)
      → get_outstanding_amount state s ≡ ok remaining
      → remaining ≡ owed_or_collateral (flatten s.outstanding_debt) state.open_interest
  unfolding get_outstanding_amount try_u128
  get_outstanding_amount-value state s remaining h = ground arith

module _ {M : Type 0} ⦃offer_map : OfferMap M⦄ where
  pub liquidate-IsConsistent :
      (s s' : Storage M) (r : Response) (host : Host) (env : Env) (info : MessageInfo)
      → IsConsistent s
      → liquidate host env info s ≡ ok (r, s')
      → IsConsistent s'
  unfolding finalize_state
  liquidate-IsConsistent s s' r host env info v h =
      let t = liquidate-IsSettled host env info s r s' h in
      let e = load_liquidation_state-IsExpired host env info s t.state t.loaded in
      let left = t.remaining - min t.funds.available t.remaining in
      ground (
        arith,
        t.stored,
        e.active,
        e.lent,
        e.denom,
        get_outstanding_amount-value t.state s t.remaining t.owed,
        undelegate_if_allowed-middle host env t.state left s t.undelegate_msgs t.undelegated_amount
            t.middle t.undelegated,
      )
