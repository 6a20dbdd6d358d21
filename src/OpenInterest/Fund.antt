-- ===== src/OpenInterest/Fund.antt =====
-- src/contract/open_interest/fund.rs: a lender takes the terms as they stand.
pub mod Steps
pub mod Success
use wasm_vault.Prelude.{ℕ, String, not, some, List, [], ◌∷◌, ◌++◌, is_some, length}
use wasm_vault.Types.{
  Addr, OpenInterest, open_interest_eq, Env, MessageInfo, CosmosMsg, Response, respond, attr, text,
  num,
}
use wasm_vault.Errors.{
  Result, ok, no_open_interest, lender_already_set, open_interest_mismatch, ◌>>=◌, ◌>>◌, fail_if,
  ok_or,
}
use wasm_vault.Host.{Host}
use wasm_vault.Storage.{OfferMap, Storage, load}
use wasm_vault.OpenInterest.Terms.{open_interest_attributes}
use wasm_vault.OpenInterest.Lending.{
  validate_liquidity_funding, set_active_lender, refund_counter_offer_escrow,
}

abbrev pub fund_response : Addr → OpenInterest → List CosmosMsg → Response
fund_response lender open_interest refund_msgs = respond refund_msgs (
    open_interest_attributes "fund_open_interest" open_interest
    ++ attr "lender" (text lender) ∷ attr "refunded_offers" (num (length refund_msgs)) ∷ [])

module _ {M : Type 0} ⦃offer_map : OfferMap M⦄ where
  unfoldable pub fund :
      Host → Env → MessageInfo → OpenInterest → Storage M → Result (Response × Storage M)
  unfolding set_active_lender refund_counter_offer_escrow
  fund host env info expected_interest s = do
    stored ← load s.open_interest
    open_interest ← ok_or stored no_open_interest
    present ← load s.lender
    fail_if (is_some present) lender_already_set
    fail_if (not (open_interest_eq open_interest expected_interest)) open_interest_mismatch
    validate_liquidity_funding info open_interest.liquidity_coin
    expiry ← host.plus_seconds env.time open_interest.expiry_duration
    let (refund_msgs, s') = refund_counter_offer_escrow (set_active_lender s info.sender expiry)
    ok (fund_response info.sender open_interest refund_msgs, s')
