-- ===== src/CounterOffer/Cancel.antt =====
-- src/contract/counter_offer/cancel.rs: a proposer takes the offer and its escrow back.
pub mod Steps
pub mod Success
use wasm_vault.Prelude.{ℕ, String, [], ◌∷◌}
use wasm_vault.Types.{OpenInterest, Env, MessageInfo, Response, respond, attr, text, num}
use wasm_vault.Errors.{Result, ok, no_open_interest, counter_offer_not_found, ◌>>=◌, ◌>>◌, ok_or}
use wasm_vault.Storage.{OfferMap, Storage, load}
use wasm_vault.OpenInterest.Lending.{refund}
use wasm_vault.CounterOffer.Helpers.{release_outstanding_debt}

abbrev pub cancel_response : String → OpenInterest → Response
cancel_response proposer stored_offer = respond (refund (proposer, stored_offer) ∷ []) (
    attr "action" (text "cancel_counter_offer")
    ∷ attr "proposer" (text proposer)
    ∷ attr "liquidity_amount" (num stored_offer.liquidity_coin.amount)
    ∷ [])

module _ {M : Type 0} ⦃offer_map : OfferMap M⦄ where
  unfoldable pub cancel : Env → MessageInfo → Storage M → Result (Response × Storage M)
  cancel env info s = do
    stored ← load s.open_interest
    ok_or stored no_open_interest
    let proposer = info.sender
    stored_offer ←
        ok_or (offer_map.may_load s.counter_offers proposer) (counter_offer_not_found proposer)
    released ← release_outstanding_debt s stored_offer.liquidity_coin
    let s' = record released { counter_offers = offer_map.remove released.counter_offers proposer }
    ok (cancel_response proposer stored_offer, s')
