-- ===== src/Escrow/Roundtrip.antt =====
-- An offer that is proposed and then cancelled or accepted, src/contract/counter_offer: propose.rs, then
-- cancel.rs or accept.rs.
use wasm_vault.Prelude.{
  ℕ, ◌<◌, ◌≡◌, refl, ap, Option, none, some, [], ◌∷◌, List, map, flatten, arith, eq_iff, eq_refl,
  length,
}
use wasm_vault.BTreeMap
use wasm_vault.BTreeMap.{get, remove, insert}
use wasm_vault.Types.{OpenInterest, Coin, Env, MessageInfo, Response}
use wasm_vault.Errors.{ok, bind-ok}
use wasm_vault.Uint.{checked_add, checked_sub}
use wasm_vault.Host.{Host, answer}
use wasm_vault.Storage.{OfferMap, Storage}
use wasm_vault.OpenInterest.Lending.{refund}
use wasm_vault.CounterOffer.Helpers.{Offer, added_debt, released_debt, add_outstanding_debt}
use wasm_vault.CounterOffer.Helpers.Eviction.{determine_eviction_candidate-IsDecision}
use wasm_vault.CounterOffer.Propose.{propose, evict}
use wasm_vault.CounterOffer.Propose.Steps.{propose-IsProposed}
use wasm_vault.CounterOffer.Cancel.{cancel, cancel_response}
use wasm_vault.CounterOffer.Cancel.Steps.{cancel_succeeds}
use wasm_vault.CounterOffer.Accept.{accept, accept_response, other_offers}
use wasm_vault.CounterOffer.Accept.Success.{accept_of_offer}
use wasm_vault.Escrow.Counting.{other_offers-eq-remove}
use wasm_vault.Invariant.Defs.{IsConsistent, IsEscrow}
use wasm_vault.Invariant.Escrow.{AreOffers, total_liquidity_pos}
use wasm_vault.Invariant.Proposals.{IsConsistent-IsRequest}

-- What was added to the debt can be released, and gives the old debt back.
released-added :
    (active : OpenInterest) (debt debt' : Option Coin) (coin : Coin) (offers : List Offer)
    → AreOffers active offers
    → IsEscrow active debt offers
    → added_debt debt coin ≡ ok debt'
    → released_debt debt' coin ≡ ok debt
unfolding added_debt released_debt checked_add checked_sub
released-added active none debt' coin offers all escrow h = ground (arith, eq_refl coin.denom)
released-added active (some debt) debt' coin offers all escrow h =
    ground (arith, eq_iff debt.denom coin.denom, total_liquidity_pos active offers all)

-- A proposal on a table with room: what it stores, and that the offer can be found again.
record IsEntered {M : Type 0} ⦃offer_map : OfferMap M⦄ (info : MessageInfo) (terms : OpenInterest)
    (s s' : Storage M) : Type 0 where
  active : OpenInterest
  debt : Option Coin
  requested : s.open_interest ≡ some (some active)
  unfunded : s.lender ≡ some none
  added : added_debt (flatten s.outstanding_debt) terms.liquidity_coin ≡ ok debt
  absent : get info.sender (offer_map.range s.counter_offers) ≡ none
  stored : s' ≡ record s {
    outstanding_debt = some debt;
    counter_offers = offer_map.save s.counter_offers info.sender terms;
  }
  there :
      offer_map.may_load (offer_map.save s.counter_offers info.sender terms) info.sender
      ≡ some terms

module _ {M : Type 0} ⦃offer_map : OfferMap M⦄ (s s' : Storage M) (r : Response) (env later : Env)
    (info : MessageInfo) (terms : OpenInterest) (v : IsConsistent s)
    (room : length (offer_map.range s.counter_offers) < 255)
    (h : propose env info terms s ≡ ok (r, s')) where
  propose-IsEntered : IsEntered info terms s s'
  unfolding add_outstanding_debt evict
  propose-IsEntered =
      let p = propose-IsProposed env info terms s r s' h in
      let m = offer_map.range s.counter_offers in
      let d = determine_eviction_candidate-IsDecision m terms p.candidate p.decided in
      let kept : p.middle ≡ s = ground (arith, p.evicted, d) in
      let held_offers = offer_map.save s.counter_offers info.sender terms in
      bind-ok (added_debt (flatten p.middle.outstanding_debt) terms.liquidity_coin) _ p.added
        λ debt added h1. record {
          active = p.active;
          debt = debt;
          requested = p.requested;
          unfunded = p.unfunded;
          added = ground (arith, kept, added);
          absent = ground (arith, offer_map.may_load_lem s.counter_offers info.sender, p.absent);
          stored = ground (arith, kept, p.stored);
          there = ground (
            arith,
            offer_map.may_load_lem held_offers info.sender,
            offer_map.range-save s.counter_offers info.sender terms,
            BTreeMap.get-insert info.sender info.sender terms m,
            eq_refl info.sender,
          );
        }

  -- After a proposal that a consistent vault with fewer than 255 offers took, the proposer can cancel at
  -- once, at any time: the call succeeds, sends the offer's coin back, and leaves the offers, the
  -- outstanding debt, the request and the absent lender as they were.
  pub propose-cancel :
      (back : Response) × (final : Storage M) × (cancel later info s' ≡ ok (back, final))
      × (back.messages ≡ refund (info.sender, terms) ∷ [])
      × (offer_map.range final.counter_offers ≡ offer_map.range s.counter_offers)
      × (final.outstanding_debt ≡ s.outstanding_debt)
      × (final.open_interest ≡ s.open_interest)
      × (final.lender ≡ s.lender)
  propose-cancel =
      let p = propose-IsEntered in
      let m = offer_map.range s.counter_offers in
      let q = IsConsistent-IsRequest s p.active v p.requested p.unfunded in
      let old = flatten s.outstanding_debt in
      let released : released_debt p.debt terms.liquidity_coin ≡ ok old =
        released-added p.active old p.debt terms.liquidity_coin m q.all q.escrow p.added in
      let held_offers = offer_map.save s.counter_offers info.sender terms in
      let back_to = BTreeMap.remove-insert info.sender terms m p.absent in
      (
        cancel_response info.sender terms,
        record s' {
          outstanding_debt = some old;
          counter_offers = offer_map.remove s'.counter_offers info.sender;
        },
        cancel_succeeds later info s' p.active terms old (ground (arith, p.stored, p.requested))
            (ground (arith, p.stored, p.there)) (ground (arith, p.stored, released)),
        refl,
        ground (
          arith,
          p.stored,
          offer_map.range-remove held_offers info.sender,
          offer_map.range-save s.counter_offers info.sender terms,
          back_to,
        ),
        ground arith,
        ground (arith, p.stored),
        ground (arith, p.stored),
      )

  -- After a proposal that a consistent vault with fewer than 255 offers took, the owner can accept it at
  -- any time, where the chain takes the proposer's address for valid and can hold the expiry: the call
  -- succeeds, refunds each offer that was there
  -- before the proposal, makes the proposer the lender on the terms proposed, and leaves no offers and
  -- no debt.
  pub propose-accept :
      (host : Host) (owner : MessageInfo) (expiry : ℕ)
      → s.owner ≡ some owner.sender
      → host.addr_validate info.sender ≡ answer info.sender
      → host.plus_seconds later.time terms.expiry_duration ≡ ok expiry
      → (taken : Response) × (final : Storage M) × (accept host later owner info.sender terms s'
          ≡ ok (taken, final))
        × (taken.messages ≡ map refund (offer_map.range s.counter_offers))
        × (final.lender ≡ some (some info.sender))
        × (final.open_interest ≡ some (some terms))
        × (final.open_interest_expiry ≡ some (some expiry))
        × (offer_map.range final.counter_offers ≡ [])
        × (final.outstanding_debt ≡ some none)
  propose-accept host owner expiry is_owner valid expires =
      let p = propose-IsEntered in
      let m = offer_map.range s.counter_offers in
      let held = insert info.sender terms m in
      let q = IsConsistent-IsRequest s p.active v p.requested p.unfunded in
      let others : other_offers info.sender (offer_map.range s'.counter_offers) ≡ m = ground (
        arith,
        p.stored,
        offer_map.range-save s.counter_offers info.sender terms,
        other_offers-eq-remove info.sender held
            (BTreeMap.insert-IsAscending info.sender terms m q.ascending),
        BTreeMap.remove-insert info.sender terms m p.absent,
      ) in
      (
        accept_response info.sender terms
            (other_offers info.sender (offer_map.range s'.counter_offers)),
        record s' {
          counter_offers = offer_map.clear s'.counter_offers;
          open_interest = some (some terms);
          outstanding_debt = some none;
          lender = some (some info.sender);
          open_interest_expiry = some (some expiry);
        },
        accept_of_offer host later owner p.active terms s' info.sender info.sender expiry
            (ground (arith, p.stored, is_owner)) (ground (arith, p.stored, p.requested))
            (ground (arith, p.stored, p.unfunded)) valid (ground (arith, p.stored, p.there))
            expires,
        ap (map refund) others,
        refl,
        refl,
        refl,
        offer_map.range-clear s'.counter_offers,
        refl,
      )
