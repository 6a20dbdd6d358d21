-- ===== src/Agreement/Offers.antt =====
-- The counter offers, src/contract/counter_offer.
use wasm_vault.Prelude.{◌≡◌, refl, String, Option, none, some, arith}
use wasm_vault.BTreeMap
use wasm_vault.BTreeMap.{get, remove, IsAscending}
use wasm_vault.Types.{OpenInterest, ExecuteMsg, Env, MessageInfo, Response}
use wasm_vault.Errors.{ok}
use wasm_vault.Host.{Host}
use wasm_vault.Storage.{OfferMap, Storage}
use wasm_vault.CounterOffer.Helpers.{Offer, add_outstanding_debt, release_outstanding_debt}
use wasm_vault.CounterOffer.Helpers.Eviction.{IsDecision, determine_eviction_candidate-IsDecision}
use wasm_vault.CounterOffer.Propose.{evict, eviction_refund}
use wasm_vault.CounterOffer.Propose.Steps.{
  propose-IsProposed, propose-keeps, validate_counter_offer-IsOfferFor,
}
use wasm_vault.CounterOffer.Accept.Steps.{accept-IsAccepted}
use wasm_vault.CounterOffer.Cancel.Steps.{cancel-IsCancelled}
use wasm_vault.Execute.{execute}
use wasm_vault.Invariant.Defs.{IsConsistent, IsOfferFor}
use wasm_vault.Invariant.Proposals.{offered-unlent}
use wasm_vault.Escrow.Counting.{amount_in}
use wasm_vault.Escrow.Offers.{propose-conserves}
use wasm_vault.Escrow.Endings.{accept-refunds}
use wasm_vault.Agreement.{auction, deal_of, book_of, Does}
use wasm_vault.Agreement.Book.{may_load-save, may_load-remove, other-Refunds}
use wasm_vault.Agreement.Steps.{does}

module _ {M : Type 0} ⦃offer_map : OfferMap M⦄ (host : Host) (env : Env) (info : MessageInfo)
    (s s' : Storage M) (r : Response) (v : IsConsistent s) where
  abbrev DoesIt : ExecuteMsg → Type 0
  DoesIt msg = Does host env info (deal_of s) msg r.messages (deal_of s')

  pub cancel-Does :
      execute host env info ExecuteMsg.cancel_counter_offer s ≡ ok (r, s')
      → DoesIt ExecuteMsg.cancel_counter_offer
  unfolding execute
  cancel-Does h =
      let c = cancel-IsCancelled env info s r s' h in
      let unlent = offered-unlent s c.active info.sender c.offer v c.requested c.found in
      does host env info s s' r ExecuteMsg.cancel_counter_offer
        (Does.cancels c.active c.offer (book_of s) (book_of s') c.found (λ q.
          ground (arith, c.stored, may_load-remove s.counter_offers info.sender q v.ascending)))
        (ground (arith, c.requested, unlent)) c.sent (ground (arith, c.requested, unlent, c.stored))

  pub accept-Does :
      (proposer : String) (terms : OpenInterest)
      → execute host env info (ExecuteMsg.accept_counter_offer proposer terms) s ≡ ok (r, s')
      → DoesIt (ExecuteMsg.accept_counter_offer proposer terms)
  unfolding execute
  accept-Does proposer terms h =
      let a = accept-IsAccepted host env info proposer terms s r s' h in
      let exact =
        accept-refunds s s' r a.active v a.requested host env info proposer terms a.lender
          a.validated h in
      does host env info s s' r (ExecuteMsg.accept_counter_offer proposer terms)
        (Does.accepts a.active terms (book_of s) proposer a.lender a.expiry r.messages a.validated
          a.found a.expires (other-Refunds s r.messages a.lender v exact.1))
        (ground (arith, a.requested, a.unfunded)) refl (ground (arith, a.stored))

  evict-books :
      (candidate : Option Offer) (middle : Storage M)
      → evict candidate s ≡ ok middle
      → middle.counter_offers ≡ elim candidate [
        | none ↦ s.counter_offers
        | some worst ↦ offer_map.remove s.counter_offers worst.0
      ]
  unfolding evict release_outstanding_debt
  evict-books none middle h = ground arith
  evict-books (some (k, offer)) middle h = ground arith

  pub propose-Does :
      (offer : OpenInterest)
      → execute host env info (ExecuteMsg.propose_counter_offer offer) s ≡ ok (r, s')
      → DoesIt (ExecuteMsg.propose_counter_offer offer)
  unfolding execute add_outstanding_debt
  propose-Does offer h =
      let p = propose-IsProposed env info offer s r s' h in
      let kept = propose-keeps env info offer s r s' h in
      let conserved = propose-conserves s s' r env info offer p.active v p.requested h in
      let fits = validate_counter_offer-IsOfferFor p.active offer p.valid in
      let decided =
        determine_eviction_candidate-IsDecision (offer_map.range s.counter_offers) offer p.candidate
          p.decided in
      let saved : s'.counter_offers ≡ offer_map.save p.middle.counter_offers info.sender offer =
        ground (arith, p.stored, p.added) in
      by_candidate p.active p.candidate p.middle fits conserved.0 p.absent p.sent decided
        (evict-books p.candidate p.middle p.evicted) saved (ground (arith, p.requested, p.unfunded))
        (ground (arith, kept, p.requested, p.unfunded))
    where
      by_candidate :
          (terms : OpenInterest) (candidate : Option Offer) (middle : Storage M)
          → IsOfferFor terms offer
          → amount_in terms.liquidity_coin.denom info.funds ≡ offer.liquidity_coin.amount
          → offer_map.may_load s.counter_offers info.sender ≡ none
          → r.messages ≡ eviction_refund candidate
          → IsDecision (offer_map.range s.counter_offers) offer candidate
          → middle.counter_offers ≡ elim candidate [
            | none ↦ s.counter_offers
            | some worst ↦ offer_map.remove s.counter_offers worst.0
          ]
          → s'.counter_offers ≡ offer_map.save middle.counter_offers info.sender offer
          → deal_of s ≡ auction terms (book_of s)
          → deal_of s' ≡ auction terms (book_of s')
          → DoesIt (ExecuteMsg.propose_counter_offer offer)
      by_candidate terms none middle fits exact absent sent d kept saved before later =
          does host env info s s' r (ExecuteMsg.propose_counter_offer offer)
            (Does.proposes terms offer (book_of s) (book_of s') fits exact absent
              (λ q. ground (arith, may_load-save s.counter_offers info.sender offer q)))
            before sent later
      by_candidate terms (some (k, worst)) middle fits exact absent sent d kept saved before later =
          does host env info s s' r (ExecuteMsg.propose_counter_offer offer)
            (Does.outbids terms offer worst k (book_of s) (book_of s') fits exact absent
              (ground (
                arith,
                offer_map.may_load_lem s.counter_offers k,
                BTreeMap.get_of_IsIn k worst (offer_map.range s.counter_offers) v.ascending d.1,
              ))
              d.3
              (λ q. ground (
                arith,
                may_load-save (offer_map.remove s.counter_offers k) info.sender offer q,
                may_load-remove s.counter_offers k q v.ascending,
              )))
            before sent later
