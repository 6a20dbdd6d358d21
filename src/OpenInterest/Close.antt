-- ===== src/OpenInterest/Close.antt =====
-- src/contract/open_interest/close.rs: the owner withdraws an unfunded request.
use wasm_vault.Prelude.{none, some, is_some}
use wasm_vault.Types.{MessageInfo, Response, respond}
use wasm_vault.Errors.{
  Result, ok, no_open_interest, lender_already_set, ◌>>=◌, ◌>>◌, fail_if, ok_or,
}
use wasm_vault.Storage.{OfferMap, Storage, load}
use wasm_vault.Helpers.{require_owner}
use wasm_vault.OpenInterest.Terms.{open_interest_attributes}
use wasm_vault.OpenInterest.Lending.{clear_active_lender, refund_counter_offer_escrow}

module _ {M : Type 0} ⦃offer_map : OfferMap M⦄ where
  unfoldable pub close : MessageInfo → Storage M → Result (Response × Storage M)
  unfolding clear_active_lender refund_counter_offer_escrow
  close info s = do
    require_owner s info
    present ← load s.lender
    fail_if (is_some present) lender_already_set
    stored ← load s.open_interest
    open_interest ← ok_or stored no_open_interest
    let cleared = clear_active_lender (record s { open_interest = some none })
    let (refund_msgs, s') = refund_counter_offer_escrow cleared
    ok (respond refund_msgs (open_interest_attributes "close_open_interest" open_interest), s')
