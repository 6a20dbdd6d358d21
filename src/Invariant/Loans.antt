-- ===== src/Invariant/Loans.antt =====
-- The invariant under the handlers of src/contract/open_interest.
use wasm_vault.Prelude.{◌≡◌, arith}
use wasm_vault.Types.{Env, MessageInfo, OpenInterest, Response}
use wasm_vault.Errors.{ok}
use wasm_vault.Host.{Host}
use wasm_vault.Storage.{OfferMap, Storage}
use wasm_vault.OpenInterest.Terms.{validate_open_interest}
use wasm_vault.OpenInterest.Execute.{execute}
use wasm_vault.OpenInterest.Fund.{fund}
use wasm_vault.OpenInterest.Close.{close}
use wasm_vault.OpenInterest.Repay.{repay}
use wasm_vault.Invariant.Defs.{IsConsistent, IsLoan}

validate_open_interest-IsLoan :
    (host : Host) (env : Env) (terms : OpenInterest)
    → validate_open_interest host env terms ≡ ok tt
    → IsLoan terms
unfolding validate_open_interest
validate_open_interest-IsLoan host env terms h = ground arith

module _ {M : Type 0} ⦃offer_map : OfferMap M⦄ {s s' : Storage M} {r : Response} where
  pub open-IsConsistent :
      (host : Host) (env : Env) (info : MessageInfo) (terms : OpenInterest)
      → IsConsistent s
      → execute host env info terms s ≡ ok (r, s')
      → IsConsistent s'
  unfolding execute
  open-IsConsistent host env info terms v h =
      ground (
        arith,
        offer_map.range-clear s.counter_offers,
        validate_open_interest-IsLoan host env terms,
      )

  pub fund-IsConsistent :
      (host : Host) (env : Env) (info : MessageInfo) (terms : OpenInterest)
      → IsConsistent s
      → fund host env info terms s ≡ ok (r, s')
      → IsConsistent s'
  unfolding fund
  fund-IsConsistent host env info terms v h = ground (arith, offer_map.range-clear s.counter_offers)

  pub close-IsConsistent :
      (info : MessageInfo) → IsConsistent s → close info s ≡ ok (r, s') → IsConsistent s'
  unfolding close
  close-IsConsistent info v h = ground (arith, offer_map.range-clear s.counter_offers)

  pub repay-IsConsistent :
      (host : Host) (env : Env) (info : MessageInfo)
      → IsConsistent s
      → repay host env info s ≡ ok (r, s')
      → IsConsistent s'
  unfolding repay
  repay-IsConsistent host env info v h = ground arith
