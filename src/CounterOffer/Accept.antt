-- ===== src/CounterOffer/Accept.antt =====
-- src/contract/counter_offer/accept.rs: the owner takes one offer, and the others are refunded.
pub mod Steps
pub mod Success
use wasm_vault.Prelude.{
  ℕ, String, not, none, some, List, [], ◌∷◌, map, is_some, str_eq, filter_by, length,
}
use wasm_vault.Types.{
  OpenInterest, open_interest_eq, Env, MessageInfo, Response, respond, attr, text, num,
}
use wasm_vault.Errors.{
  Result, ok, no_open_interest, lender_already_set, counter_offer_not_found, counter_offer_mismatch,
  ◌>>=◌, ◌>>◌, fail_if, ok_or,
}
use wasm_vault.Host.{Host, try}
use wasm_vault.Storage.{OfferMap, Storage, load}
use wasm_vault.Helpers.{require_owner}
use wasm_vault.OpenInterest.Lending.{refund, set_active_lender}
use wasm_vault.CounterOffer.Helpers.{Offer}

-- The offers of everyone but the lender.
abbrev pub other_offers : String → List Offer → List Offer
other_offers lender_addr = filter_by (λ (entry : Offer). not (str_eq entry.0 lender_addr))

abbrev pub accept_response : String → OpenInterest → List Offer → Response
accept_response lender_addr accepted_offer refunds = respond (map refund refunds) (
    attr "action" (text "accept_counter_offer")
    ∷ attr "lender" (text lender_addr)
    ∷ attr "liquidity_amount" (num accepted_offer.liquidity_coin.amount)
    ∷ attr "refunded_offers" (num (length refunds))
    ∷ [])

module _ {M : Type 0} ⦃offer_map : OfferMap M⦄ where
  unfoldable pub accept :
      Host → Env → MessageInfo → String → OpenInterest → Storage M → Result (Response × Storage M)
  unfolding set_active_lender
  accept host env info proposer expected_interest s = do
    require_owner s info
    stored ← load s.open_interest
    ok_or stored no_open_interest
    present ← load s.lender
    fail_if (is_some present) lender_already_set
    lender_addr ← try (host.addr_validate proposer)
    accepted_offer ←
        ok_or (offer_map.may_load s.counter_offers lender_addr) (counter_offer_not_found proposer)
    fail_if (not (open_interest_eq accepted_offer expected_interest))
        (counter_offer_mismatch proposer)
    let refunds = other_offers lender_addr (offer_map.range s.counter_offers)
    expiry ← host.plus_seconds env.time accepted_offer.expiry_duration
    let s' =
        set_active_lender
          (record s {
            counter_offers = offer_map.clear s.counter_offers;
            open_interest = some (some accepted_offer);
            outstanding_debt = some none;
          })
          lender_addr expiry
    ok (accept_response lender_addr accepted_offer refunds, s')
