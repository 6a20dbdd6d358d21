-- ===== src/OpenInterest/Liquidate/Steps.antt =====
-- What a liquidation that succeeds has computed on the way, step by step.
use wasm_vault.Prelude.{
  ℕ, ◌-◌, ◌≤◌, ◌≡◌, ◌⊎◌, inl, inr, not, ◌&&◌, some, List, ◌++◌, str_eq, ◌==◌, min, flatten, arith,
  eq_iff, Option-cases, Bool-cases,
}
use wasm_vault.Types.{Addr, Env, MessageInfo, Response, CosmosMsg}
use wasm_vault.Errors.{
  ok, ok_or, expect, no_open_interest, no_lender, fail_if, insufficient_balance, bind-ok,
}
use wasm_vault.Host.{Host, answer}
use wasm_vault.Helpers.{require_owner_or_lender}
use wasm_vault.Storage.{Storage, load}
use wasm_vault.OpenInterest.Liquidation.{
  LiquidationState, CollectedFunds, load_liquidation_state, get_outstanding_amount, collect_funds,
  finalize_state,
}
use wasm_vault.OpenInterest.Liquidate.{liquidate, undelegate_if_allowed, payout_messages}

-- The state of a loan that may be liquidated.
pub record IsExpired {M : Type 0} (host : Host) (env : Env) (info : MessageInfo) (s : Storage M)
    (state : LiquidationState) : Type 0 where
  pub active : flatten s.open_interest ≡ some state.open_interest
  pub lent : flatten s.lender ≡ some state.lender
  pub denom : state.collateral_denom ≡ state.open_interest.collateral.denom
  pub contract : state.contract_addr ≡ env.contract_address
  pub bonded : host.query_bonded_denom ≡ answer state.bonded_denom
  pub expiry : (e : ℕ) × (s.open_interest_expiry ≡ some (some e)) × (e ≤ env.time)
  pub caller : (s.owner ≡ some info.sender) ⊎ (flatten s.lender ≡ some info.sender)

module _ {M : Type 0} (host : Host) (env : Env) (info : MessageInfo) (s : Storage M) where
  require_owner_or_lender-caller :
      (caller : Addr)
      → require_owner_or_lender s info ≡ ok caller
      → (s.owner ≡ some info.sender) ⊎ (flatten s.lender ≡ some info.sender)
  unfolding require_owner_or_lender
  require_owner_or_lender-caller caller h = elim (Option-cases s.owner) [
    | inl missing ↦ absurd (ground arith)
    | inr (owner, e) ↦ elim (Option-cases (flatten s.lender)) [
      | inl unlent ↦ inl (ground (arith, eq_iff info.sender owner))
      | inr (lender, d) ↦ elim (Bool-cases (str_eq info.sender owner)) [
        | inl is_owner ↦ inl (ground (arith, eq_iff info.sender owner))
        | inr is_lender ↦ inr (ground (arith, eq_iff info.sender lender))
      ]
    ]
  ]

  pub load_liquidation_state-IsExpired :
      (state : LiquidationState)
      → load_liquidation_state host env info s ≡ ok state
      → IsExpired host env info s state
  unfolding load_liquidation_state
  load_liquidation_state-IsExpired state h =
      bind-ok (require_owner_or_lender s info) _ h λ caller authorised h1.
        bind-ok (ok_or (flatten s.open_interest) no_open_interest) _ h1 λ active isactive h2.
          bind-ok (ok_or (flatten s.lender) no_lender) _ h2 λ lender islent h3.
            bind-ok (load s.open_interest_expiry) _ h3 λ stored isstored h4.
              bind-ok (expect stored) _ h4 λ expiry isexpiry h5. record {
                bonded = ground arith;
                active = ground arith;
                lent = ground arith;
                denom = ground arith;
                contract = ground arith;
                expiry = (expiry, ground arith, ground arith);
                caller = require_owner_or_lender-caller caller authorised;
              }

  pub record IsSettled (r : Response) (s' : Storage M) : Type 0 where
    pub state : LiquidationState
    pub remaining : ℕ
    pub funds : CollectedFunds
    pub undelegate_msgs : List CosmosMsg
    pub undelegated_amount : ℕ
    pub middle : Storage M
    pub loaded : load_liquidation_state host env info s ≡ ok state
    pub owed : get_outstanding_amount state s ≡ ok remaining
    pub collected : collect_funds host env state remaining ≡ ok funds
    pub covered :
        (remaining - min funds.available remaining ≡ 0)
        ⊎ (state.collateral_denom ≡ state.bonded_denom)
    pub undelegated :
        undelegate_if_allowed host env state (remaining - min funds.available remaining) s
        ≡ ok (undelegate_msgs, undelegated_amount, middle)
    pub sent :
        r.messages
        ≡ funds.reward_claim_messages
          ++ payout_messages state (min funds.available remaining)
          ++ undelegate_msgs
    pub stored : s' ≡ finalize_state state (remaining - min funds.available remaining) middle

  pub liquidate-IsSettled :
      (r : Response) (s' : Storage M) → liquidate host env info s ≡ ok (r, s') → IsSettled r s'
  unfolding liquidate
  liquidate-IsSettled r s' h =
      bind-ok (load_liquidation_state host env info s) _ h λ state loaded h1.
        bind-ok (get_outstanding_amount state s) _ h1 λ remaining owed h2.
          bind-ok (collect_funds host env state remaining) _ h2 λ funds collected h3.
            bind-ok
              (fail_if
                (not (remaining - min funds.available remaining == 0)
                  && not (str_eq state.collateral_denom state.bonded_denom))
                (insufficient_balance state.collateral_denom funds.available remaining))
              _ h3
              λ _ enough h4.
                bind-ok
                  (undelegate_if_allowed host env state (remaining - min funds.available remaining)
                    s)
                  _ h4
                  λ undelegation undelegated h5. record {
                    state = state;
                    remaining = remaining;
                    funds = funds;
                    undelegate_msgs = undelegation.0;
                    undelegated_amount = undelegation.1;
                    middle = undelegation.2;
                    loaded = loaded;
                    owed = owed;
                    collected = collected;
                    covered = ground (arith, eq_iff state.collateral_denom state.bonded_denom);
                    undelegated = undelegated;
                    sent = ground arith;
                    stored = ground arith;
                  }
