-- ===== src/OpenInterest/Repay/Success.antt =====
-- When a repayment succeeds, src/contract/open_interest/repay.rs.
use wasm_vault.Prelude.{◌≡◌, refl, some, none, List, [], ◌∷◌, map, arith, eq_refl}
use wasm_vault.Types.{Addr, Coin, OpenInterest, Env, MessageInfo}
use wasm_vault.Errors.{ok}
use wasm_vault.Host.{Host}
use wasm_vault.Storage.{Storage}
use wasm_vault.Helpers.{require_owner}
use wasm_vault.OpenInterest.Terms.{RepaymentAmount, build_repayment_amounts}
use wasm_vault.OpenInterest.Lending.{clear_active_lender}
use wasm_vault.OpenInterest.Repay.{repay, collect_repayment, repay_response}
use wasm_vault.OpenInterest.Repay.Payment.{IsCovered}

-- The coins of a repayment.
abbrev pub coins_of : List RepaymentAmount → List Coin
coins_of = map (λ (a : RepaymentAmount). record { amount = a.coin_amount; denom = a.denom })

collect_repayment_of_covered :
    (host : Host) (addr : Addr) (amounts : List RepaymentAmount)
    → IsCovered host addr amounts
    → collect_repayment host addr amounts ≡ ok (coins_of amounts)
unfolding collect_repayment
collect_repayment_of_covered host addr [] h = refl
collect_repayment_of_covered host addr (a ∷ amounts) h =
    ground (arith, collect_repayment_of_covered host addr amounts h.1, h.0.1, h.0.2)

module _ {M : Type 0} (host : Host) (env : Env) (info : MessageInfo) (terms : OpenInterest)
    (s : Storage M) where
  -- The owner of a loan that no liquidation has paid in part can repay it at any time, where the
  -- balance of the vault covers each repayment amount: the lender is sent those amounts and the loan
  -- is gone.
  pub repay_of_covered :
      (lender : Addr) (amounts : List RepaymentAmount)
      → s.owner ≡ some info.sender
      → s.open_interest ≡ some (some terms)
      → s.lender ≡ some (some lender)
      → s.outstanding_debt ≡ some none
      → build_repayment_amounts terms ≡ ok amounts
      → IsCovered host env.contract_address amounts
      → repay host env info s
        ≡ ok (
          repay_response lender terms (coins_of amounts),
          clear_active_lender (record s { open_interest = some none }),
        )
  unfolding repay require_owner clear_active_lender
  repay_of_covered lender amounts o i l d b c =
      ground (
        arith,
        eq_refl info.sender,
        collect_repayment_of_covered host env.contract_address amounts c,
      )
