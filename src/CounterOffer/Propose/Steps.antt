-- ===== src/CounterOffer/Propose/Steps.antt =====
-- What an accepted proposal has passed, step by step.
use wasm_vault.Prelude.{◌≡◌, Option, none, some, is_some, arith, eq_iff}
use wasm_vault.Types.{OpenInterest, Env, MessageInfo, Response}
use wasm_vault.Errors.{
  ok, ok_or, no_open_interest, lender_already_set, counter_offer_already_exists, fail_if, bind-ok,
}
use wasm_vault.Storage.{OfferMap, Storage, load}
use wasm_vault.CounterOffer.Helpers.{
  Offer, validate_counter_offer, validate_counter_offer_escrow, determine_eviction_candidate,
  add_outstanding_debt, release_outstanding_debt,
}
use wasm_vault.CounterOffer.Propose.{propose, evict, eviction_refund}
use wasm_vault.Invariant.Defs.{IsOfferFor}

pub validate_counter_offer-IsOfferFor :
    (active proposed : OpenInterest)
    → validate_counter_offer active proposed ≡ ok tt
    → IsOfferFor active proposed
unfolding validate_counter_offer
validate_counter_offer-IsOfferFor active proposed h = ground (
  arith,
  eq_iff proposed.liquidity_coin.denom active.liquidity_coin.denom,
  eq_iff proposed.interest_coin.denom active.interest_coin.denom,
  eq_iff proposed.collateral.denom active.collateral.denom,
)

module _ {M : Type 0} ⦃offer_map : OfferMap M⦄ (env : Env) (info : MessageInfo)
    (terms : OpenInterest) (s : Storage M) where
  pub record IsProposed (r : Response) (s' : Storage M) : Type 0 where
    pub active : OpenInterest
    pub candidate : Option Offer
    pub middle : Storage M
    pub updated : Storage M
    pub requested : s.open_interest ≡ some (some active)
    pub unfunded : s.lender ≡ some none
    pub valid : validate_counter_offer active terms ≡ ok tt
    pub escrowed : validate_counter_offer_escrow info terms ≡ ok tt
    pub absent : offer_map.may_load s.counter_offers info.sender ≡ none
    pub decided :
        determine_eviction_candidate (offer_map.range s.counter_offers) terms ≡ ok candidate
    pub evicted : evict candidate s ≡ ok middle
    pub added : add_outstanding_debt middle terms.liquidity_coin ≡ ok updated
    pub sent : r.messages ≡ eviction_refund candidate
    pub stored : s' ≡ record updated {
      counter_offers = offer_map.save updated.counter_offers info.sender terms;
    }

  pub propose-IsProposed :
      (r : Response) (s' : Storage M) → propose env info terms s ≡ ok (r, s') → IsProposed r s'
  unfolding propose
  propose-IsProposed r s' h = bind-ok (load s.open_interest) _ h λ stored is_stored h1.
      bind-ok (ok_or stored no_open_interest) _ h1 λ active is_active h2.
        bind-ok (load s.lender) _ h2 λ present is_present h3.
          bind-ok (fail_if (is_some present) lender_already_set) _ h3 λ _ unfunded h4.
            bind-ok (validate_counter_offer active terms) _ h4 λ _ valid h5.
              bind-ok (validate_counter_offer_escrow info terms) _ h5 λ _ escrowed h6.
                bind-ok
                  (fail_if (is_some (offer_map.may_load s.counter_offers info.sender))
                    counter_offer_already_exists)
                  _ h6
                  λ _ absent h7.
                    bind-ok (determine_eviction_candidate (offer_map.range s.counter_offers) terms)
                      _ h7
                      λ candidate decided h8. bind-ok (evict candidate s) _ h8 λ middle evicted h9.
                        bind-ok (add_outstanding_debt middle terms.liquidity_coin) _ h9
                          λ updated added h10. record {
                            active = active;
                            candidate = candidate;
                            middle = middle;
                            updated = updated;
                            requested = ground arith;
                            unfunded = ground arith;
                            valid = valid;
                            escrowed = escrowed;
                            absent = ground arith;
                            decided = decided;
                            evicted = evicted;
                            added = added;
                            sent = ground arith;
                            stored = ground arith;
                          }

  evict-keeps :
      (candidate : Option Offer) (middle : Storage M)
      → evict candidate s ≡ ok middle
      → (middle.open_interest ≡ s.open_interest) × (middle.lender ≡ s.lender)
  unfolding evict release_outstanding_debt
  evict-keeps none middle h = ground arith
  evict-keeps (some (k, offer)) middle h = ground arith

  -- The request stays as it is.
  pub propose-keeps :
      (r : Response) (s' : Storage M)
      → propose env info terms s ≡ ok (r, s')
      → (s'.open_interest ≡ s.open_interest) × (s'.lender ≡ s.lender)
  unfolding add_outstanding_debt
  propose-keeps r s' h =
      let p = propose-IsProposed r s' h in
      ground (arith, p.stored, p.added, evict-keeps p.candidate p.middle p.evicted)
