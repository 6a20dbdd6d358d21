-- ===== src/CounterOffer/Propose.antt =====
-- src/contract/counter_offer/propose.rs: a lender offers less liquidity on the same terms.
pub mod Steps
use wasm_vault.Prelude.{ℕ, String, Option, none, some, List, [], ◌∷◌, ◌++◌, is_some}
use wasm_vault.Types.{
  OpenInterest, Env, MessageInfo, CosmosMsg, Response, respond, Attribute, attr, text, num,
}
use wasm_vault.Errors.{
  Result, ok, no_open_interest, lender_already_set, counter_offer_already_exists, ◌>>=◌, ◌>>◌,
  fail_if, ok_or,
}
use wasm_vault.Storage.{OfferMap, Storage, load}
use wasm_vault.OpenInterest.Lending.{refund}
use wasm_vault.CounterOffer.Helpers.{
  Offer, add_outstanding_debt, release_outstanding_debt, validate_counter_offer,
  validate_counter_offer_escrow, determine_eviction_candidate,
}

abbrev pub eviction_refund : Option Offer → List CosmosMsg
eviction_refund none = []
eviction_refund (some evicted) = refund evicted ∷ []

abbrev pub eviction_attributes : Option Offer → List Attribute
eviction_attributes none = []
eviction_attributes (some (addr, offer)) = attr "evicted_proposer" (text addr) ∷ []

module _ {M : Type 0} ⦃offer_map : OfferMap M⦄ where
  -- The evicted offer leaves the map, and its escrow the outstanding debt.
  unfoldable pub evict : Option Offer → Storage M → Result (Storage M)
  evict none s = ok s
  evict (some (addr, offer)) s =
      release_outstanding_debt
        (record s { counter_offers = offer_map.remove s.counter_offers addr }) offer.liquidity_coin

  unfoldable pub propose :
      Env → MessageInfo → OpenInterest → Storage M → Result (Response × Storage M)
  propose env info proposed_interest s = do
    stored ← load s.open_interest
    active_interest ← ok_or stored no_open_interest
    present ← load s.lender
    fail_if (is_some present) lender_already_set
    validate_counter_offer active_interest proposed_interest
    validate_counter_offer_escrow info proposed_interest
    fail_if (is_some (offer_map.may_load s.counter_offers info.sender)) counter_offer_already_exists
    eviction_candidate ←
        determine_eviction_candidate (offer_map.range s.counter_offers) proposed_interest
    evicted ← evict eviction_candidate s
    added ← add_outstanding_debt evicted proposed_interest.liquidity_coin
    let s' = record added {
      counter_offers = offer_map.save added.counter_offers info.sender proposed_interest;
    }
    let attrs =
        attr "action" (text "propose_counter_offer")
        ∷ attr "proposer" (text info.sender)
        ∷ attr "liquidity_amount" (num proposed_interest.liquidity_coin.amount)
        ∷ eviction_attributes eviction_candidate
    ok (respond (eviction_refund eviction_candidate) attrs, s')
