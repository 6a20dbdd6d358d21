-- ===== src/Escrow/Offers.antt =====
-- src/contract/counter_offer/propose.rs and cancel.rs: what comes in,
-- what goes out, and the escrow.
use wasm_vault.Prelude.{
  ℕ, ◌+◌, ◌≡◌, refl, Option, none, some, [], ◌∷◌, All-IsIn, flatten, arith, eq_iff,
}
use wasm_vault.BTreeMap.{remove}
use wasm_vault.Types.{OpenInterest, Coin, Env, MessageInfo, Response}
use wasm_vault.Errors.{ok, bind-ok}
use wasm_vault.Uint.{checked_add, checked_sub}
use wasm_vault.Storage.{OfferMap, Storage}
use wasm_vault.OpenInterest.Lending.{refund}
use wasm_vault.CounterOffer.Helpers.{
  Offer, added_debt, released_debt, add_outstanding_debt, release_outstanding_debt,
}
use wasm_vault.CounterOffer.Helpers.Eviction.{IsDecision, determine_eviction_candidate-IsDecision}
use wasm_vault.CounterOffer.Propose.{propose, evict, eviction_refund}
use wasm_vault.CounterOffer.Propose.Steps.{propose-IsProposed, validate_counter_offer-IsOfferFor}
use wasm_vault.CounterOffer.Cancel.{cancel}
use wasm_vault.CounterOffer.Cancel.Steps.{cancel-IsCancelled}
use wasm_vault.Invariant.Defs.{IsConsistent, IsOfferFor}
use wasm_vault.Invariant.Proposals.{IsConsistent-IsRequest}
use wasm_vault.Invariant.Escrow.{AreOffers}
use wasm_vault.Escrow.Counting.{
  amount_in, sent_in, held, escrow_of, validate_counter_offer_escrow-exact,
}

held-released :
    (debt debt' : Option Coin) (coin : Coin)
    → released_debt debt coin ≡ ok debt'
    → held debt' + coin.amount ≡ held debt
unfolding released_debt checked_sub
held-released debt debt' coin h = ground arith

held-added :
    (debt debt' : Option Coin) (coin : Coin)
    → added_debt debt coin ≡ ok debt'
    → held debt' ≡ held debt + coin.amount
unfolding added_debt checked_add
held-added debt debt' coin h = ground arith

-- What an eviction takes out of the escrow.
abbrev pub evicted_amount : Option Offer → ℕ
evicted_amount none = 0
evicted_amount (some (k, v)) = v.liquidity_coin.amount

module _ {M : Type 0} ⦃offer_map : OfferMap M⦄ (s s' : Storage M) (r : Response) (env : Env)
    (info : MessageInfo) where
  -- While there is no lender, a cancellation that succeeds sends the proposer exactly the coin of the
  -- stored offer, the escrow falls by it, and that offer alone is removed.
  pub cancel-conserves :
      (offer : OpenInterest)
      → s.lender ≡ some none
      → offer_map.may_load s.counter_offers info.sender ≡ some offer
      → cancel env info s ≡ ok (r, s')
      → (r.messages ≡ refund (info.sender, offer) ∷ [])
        × (escrow_of s' + offer.liquidity_coin.amount ≡ escrow_of s)
        × (offer_map.range s'.counter_offers
            ≡ remove info.sender (offer_map.range s.counter_offers))
  cancel-conserves offer unfunded found h =
      let c = cancel-IsCancelled env info s r s' h in
      ground (
        arith,
        c.found,
        c.sent,
        c.stored,
        held-released (flatten s.outstanding_debt) c.debt c.offer.liquidity_coin c.released,
        offer_map.range-remove s.counter_offers info.sender,
      )

module _ {M : Type 0} ⦃offer_map : OfferMap M⦄ (s : Storage M) where
  evict-held :
      (candidate : Option Offer) (middle : Storage M)
      → evict candidate s ≡ ok middle
      → (held (flatten middle.outstanding_debt) + evicted_amount candidate
          ≡ held (flatten s.outstanding_debt))
        × (middle.lender ≡ s.lender)
  unfolding evict release_outstanding_debt
  evict-held none middle h = ground arith
  evict-held (some (k, v)) middle h =
      bind-ok (released_debt (flatten s.outstanding_debt) v.liquidity_coin) _ h λ debt released h1.
        ground (arith, held-released (flatten s.outstanding_debt) debt v.liquidity_coin released)

  evicted-sent :
      (active terms : OpenInterest) (candidate : Option Offer)
      → AreOffers active (offer_map.range s.counter_offers)
      → IsDecision (offer_map.range s.counter_offers) terms candidate
      → sent_in active.liquidity_coin.denom (eviction_refund candidate) ≡ evicted_amount candidate
  evicted-sent active terms none all d = refl
  evicted-sent active terms (some c) all d =
      let offer =
        All-IsIn (λ (o : Offer). IsOfferFor active o.1) c (offer_map.range s.counter_offers) all
          d.1 in
      ground (arith, offer, eq_iff c.1.liquidity_coin.denom active.liquidity_coin.denom)

module _ {M : Type 0} ⦃offer_map : OfferMap M⦄ (s s' : Storage M) (r : Response) (env : Env)
    (info : MessageInfo) (terms : OpenInterest) where
  -- Of a consistent vault with a request, for a proposal that succeeds: what came in the active
  -- denom is the new offer's liquidity, and the escrow afterwards, with what went out, is the escrow
  -- before with what came in.
  pub propose-conserves :
      (active : OpenInterest)
      → IsConsistent s
      → s.open_interest ≡ some (some active)
      → propose env info terms s ≡ ok (r, s')
      → (amount_in active.liquidity_coin.denom info.funds ≡ terms.liquidity_coin.amount)
        × (escrow_of s' + sent_in active.liquidity_coin.denom r.messages
            ≡ escrow_of s + amount_in active.liquidity_coin.denom info.funds)
  unfolding add_outstanding_debt
  propose-conserves active v is_active h =
      let p = propose-IsProposed env info terms s r s' h in
      let same : p.active ≡ active = ground (arith, p.requested) in
      let q = IsConsistent-IsRequest s active v is_active p.unfunded in
      let d =
        determine_eviction_candidate-IsDecision (offer_map.range s.counter_offers) terms p.candidate
          p.decided in
      bind-ok (added_debt (flatten p.middle.outstanding_debt) terms.liquidity_coin) _ p.added
        λ debt added h1. ground (
          arith,
          same,
          p.sent,
          p.stored,
          p.unfunded,
          held-added (flatten p.middle.outstanding_debt) debt terms.liquidity_coin added,
          evict-held s p.candidate p.middle p.evicted,
          evicted-sent s active terms p.candidate q.all d,
          validate_counter_offer-IsOfferFor p.active terms p.valid,
          validate_counter_offer_escrow-exact info terms p.escrowed,
        )
