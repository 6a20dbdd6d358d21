-- ===== src/Escrow/Endings.antt =====
-- The ways in which a request ends, src/contract/open_interest/fund.rs and close.rs and
-- src/contract/counter_offer/accept.rs: what becomes of the escrow.
use wasm_vault.Prelude.{◌+◌, ◌≡◌, String, none, some, [], map, is_some, flatten, arith}
use wasm_vault.BTreeMap
use wasm_vault.BTreeMap.{BTreeMap, get, remove}
use wasm_vault.Types.{OpenInterest, Env, MessageInfo, Response}
use wasm_vault.Errors.{ok, fail_if, lender_already_set, bind-ok}
use wasm_vault.Host.{Host, answer}
use wasm_vault.Storage.{OfferMap, Storage, load}
use wasm_vault.Helpers.{require_owner}
use wasm_vault.Helpers.Owner.{require_owner-eq_ok}
use wasm_vault.OpenInterest.Lending.{refund}
use wasm_vault.OpenInterest.Fund.{fund}
use wasm_vault.OpenInterest.Fund.Steps.{fund-IsFunded}
use wasm_vault.OpenInterest.Close.{close}
use wasm_vault.CounterOffer.Accept.{accept}
use wasm_vault.CounterOffer.Accept.Steps.{accept-IsAccepted}
use wasm_vault.Invariant.Defs.{IsConsistent, IsOfferFor}
use wasm_vault.Invariant.Escrow.{offered}
use wasm_vault.Invariant.Proposals.{IsConsistent-IsRequest}
use wasm_vault.Escrow.Counting.{
  amount_in, sent_in, escrow_of, sent_in-refunds, held-eq-total, other_offers-eq-remove,
  validate_liquidity_funding-exact,
}

module _ {M : Type 0} ⦃offer_map : OfferMap M⦄ (s s' : Storage M) (r : Response)
    (active : OpenInterest) (v : IsConsistent s)
    (requested : s.open_interest ≡ some (some active)) where
  -- The refund of every offer sends the whole escrow.
  refund_all :
      s.lender ≡ some none
      → sent_in active.liquidity_coin.denom (map refund (offer_map.range s.counter_offers))
        ≡ escrow_of s
  refund_all unfunded =
      let q = IsConsistent-IsRequest s active v requested unfunded in
      let m = offer_map.range s.counter_offers in
      ground (
        arith,
        sent_in-refunds active m q.all,
        held-eq-total active (flatten s.outstanding_debt) m q.escrow,
      )

  -- Of a consistent vault with a request: a funding that succeeds brings exactly the liquidity of
  -- the terms, makes the sender the lender, refunds every proposer (in the ascending order of the
  -- addresses) and sends the whole escrow back.
  pub fund-refunds :
      (host : Host) (env : Env) (info : MessageInfo)
      → fund host env info active s ≡ ok (r, s')
      → (amount_in active.liquidity_coin.denom info.funds ≡ active.liquidity_coin.amount)
        × (s'.lender ≡ some (some info.sender))
        × (r.messages ≡ map refund (offer_map.range s.counter_offers))
        × (sent_in active.liquidity_coin.denom r.messages ≡ escrow_of s)
        × (offer_map.range s'.counter_offers ≡ [])
        × (s'.outstanding_debt ≡ some none)
  fund-refunds host env info h =
      let f = fund-IsFunded host env info active s r s' h in
      ground (
        arith,
        f.sent,
        f.stored,
        refund_all f.unfunded,
        validate_liquidity_funding-exact info active.liquidity_coin f.paid,
        offer_map.range-clear s.counter_offers,
      )

  -- Of a consistent vault with a request: a close that succeeds is the owner's, refunds every proposer
  -- (in the ascending order of the addresses), sends the whole escrow back, and leaves no offers, no
  -- request and no debt.
  pub close-refunds :
      (info : MessageInfo)
      → close info s ≡ ok (r, s')
      → (s.owner ≡ some info.sender)
        × (r.messages ≡ map refund (offer_map.range s.counter_offers))
        × (sent_in active.liquidity_coin.denom r.messages ≡ escrow_of s)
        × (offer_map.range s'.counter_offers ≡ [])
        × (s'.open_interest ≡ some none)
        × (s'.outstanding_debt ≡ some none)
  unfolding close
  close-refunds info h = bind-ok (require_owner s info) _ h λ owner authorised h1.
      bind-ok (load s.lender) _ h1 λ present is_present h2.
        bind-ok (fail_if (is_some present) lender_already_set) _ h2 λ _ unfunded h3. ground (
          arith,
          require_owner-eq_ok s info owner authorised,
          refund_all (ground arith),
          offer_map.range-clear s.counter_offers,
        )

  -- Of a consistent vault with a request: an acceptance that succeeds is of a stored offer, named with
  -- its exact terms, and refunds all the others; what is sent and what the accepted offer holds are the
  -- escrow. The terms become those of the offer, which differ from the request in a smaller liquidity
  -- alone, its proposer becomes the lender, and no offers and no debt are left.
  pub accept-refunds :
      (host : Host) (env : Env) (info : MessageInfo) (proposer : String) (terms : OpenInterest)
      (lender : String)
      → host.addr_validate proposer ≡ answer lender
      → accept host env info proposer terms s ≡ ok (r, s')
      → (get lender (offer_map.range s.counter_offers) ≡ some terms)
        × (r.messages ≡ map refund (remove lender (offer_map.range s.counter_offers)))
        × (sent_in active.liquidity_coin.denom r.messages + terms.liquidity_coin.amount
            ≡ escrow_of s)
        × IsOfferFor active terms
        × (s'.open_interest ≡ some (some terms))
        × (s'.lender ≡ some (some lender))
        × (s'.outstanding_debt ≡ some none)
        × (offer_map.range s'.counter_offers ≡ [])
  accept-refunds host env info proposer terms lender validated h =
      let a = accept-IsAccepted host env info proposer terms s r s' h in
      let m = offer_map.range s.counter_offers in
      let q = IsConsistent-IsRequest s active v requested a.unfunded in
      let same : a.lender ≡ lender = ground (arith, a.validated) in
      let found : get lender m ≡ some terms =
        ground (arith, a.found, offer_map.may_load_lem s.counter_offers a.lender) in
      let offer : IsOfferFor active terms =
        BTreeMap.All-get (IsOfferFor active) lender terms m q.all found in
      let others = other_offers-eq-remove lender m q.ascending in
      let all =
        BTreeMap.All-remove (λ (o : String × OpenInterest). IsOfferFor active o.1) lender m q.all in
      ground (
        arith,
        same,
        found,
        offer,
        others,
        a.sent,
        a.stored,
        a.unfunded,
        sent_in-refunds active (remove lender m) all,
        held-eq-total active (flatten s.outstanding_debt) m q.escrow,
        BTreeMap.sum_of-remove offered lender terms m found,
        offer_map.range-clear s.counter_offers,
      )
