-- ===== src/Invariant/Proposals.antt =====
-- The invariant under a proposal, with or without an eviction.
use wasm_vault.Prelude.{◌<◌, ◌≡◌, String, Option, some, none, length, flatten, arith}
use wasm_vault.BTreeMap
use wasm_vault.BTreeMap.{BTreeMap, get, insert, remove}
use wasm_vault.Types.{Addr, Coin, Env, MessageInfo, OpenInterest, Response}
use wasm_vault.Errors.{ok, bind-ok}
use wasm_vault.Storage.{OfferMap, Storage}
use wasm_vault.CounterOffer.Helpers.{
  Offer, release_outstanding_debt, released_debt, added_debt, add_outstanding_debt,
}
use wasm_vault.CounterOffer.Helpers.Eviction.{IsDecision, determine_eviction_candidate-IsDecision}
use wasm_vault.CounterOffer.Propose.{propose, evict}
use wasm_vault.CounterOffer.Propose.Steps.{propose-IsProposed, validate_counter_offer-IsOfferFor}
use wasm_vault.Invariant.Defs.{IsConsistent}
use wasm_vault.Invariant.Offers.{IsRequest, remove-IsRequest, insert-IsRequest}

module _ {M : Type 0} ⦃offer_map : OfferMap M⦄ where
  -- The storage after an eviction: a smaller map and a smaller debt, and nothing else.
  pub record IsEvicted (s : Storage M) (active : OpenInterest) (sender : String)
      (middle : Storage M) : Type 0 where
    pub debt : Option Coin
    pub offers : M
    pub stored : middle ≡ record s { counter_offers = offers; outstanding_debt = some debt }
    pub request : IsRequest active debt (offer_map.range offers)
    pub room : length (offer_map.range offers) < 255
    pub absent : get sender (offer_map.range offers) ≡ none

  pub evict-IsEvicted :
      (s : Storage M) (active terms : OpenInterest) (sender : String) (candidate : Option Offer)
      (middle : Storage M)
      → s.outstanding_debt ≡ some (flatten s.outstanding_debt)
      → IsRequest active (flatten s.outstanding_debt) (offer_map.range s.counter_offers)
      → IsDecision (offer_map.range s.counter_offers) terms candidate
      → get sender (offer_map.range s.counter_offers) ≡ none
      → evict candidate s ≡ ok middle
      → IsEvicted s active sender middle
  unfolding evict release_outstanding_debt
  evict-IsEvicted s active terms sender none middle saved q d absent h = record {
    debt = flatten s.outstanding_debt;
    offers = s.counter_offers;
    stored = ground arith;
    request = q;
    room = d;
    absent = absent;
  }
  evict-IsEvicted s active terms sender (some (k, v)) middle saved q d absent h =
      let m = offer_map.range s.counter_offers in
      let found : get k m ≡ some v = BTreeMap.get_of_IsIn k v m q.ascending d.1 in
      bind-ok (released_debt (flatten s.outstanding_debt) v.liquidity_coin) _ h λ debt released h1.
        let smaller =
          remove-IsRequest active (flatten s.outstanding_debt) debt k v m q found released in
        let shrunk = offer_map.range-remove s.counter_offers k in
        record {
          debt = debt;
          offers = offer_map.remove s.counter_offers k;
          stored = ground arith;
          request = rw shrunk smaller.0;
          room = rw shrunk (let fits = q.fits in omega arith);
          absent = rw shrunk (BTreeMap.get-remove_none k sender m absent);
        }

  -- The invariant of an unfunded request, in one record.
  pub IsConsistent-IsRequest :
      (s : Storage M) (active : OpenInterest)
      → IsConsistent s
      → s.open_interest ≡ some (some active)
      → s.lender ≡ some none
      → IsRequest active (flatten s.outstanding_debt) (offer_map.range s.counter_offers)
  IsConsistent-IsRequest s active v requested unfunded = ground arith

  -- An offer is stored only while there is no lender.
  pub offered-unlent :
      (s : Storage M) (active : OpenInterest) (proposer : Addr) (offer : OpenInterest)
      → IsConsistent s
      → s.open_interest ≡ some (some active)
      → offer_map.may_load s.counter_offers proposer ≡ some offer
      → s.lender ≡ some none
  unfolding get
  offered-unlent s active proposer offer v asked found =
      ground (arith, v.phase, offer_map.may_load_lem s.counter_offers proposer)

  pub propose-IsConsistent :
      (s s' : Storage M) (r : Response) (env : Env) (info : MessageInfo) (terms : OpenInterest)
      → IsConsistent s
      → propose env info terms s ≡ ok (r, s')
      → IsConsistent s'
  unfolding add_outstanding_debt
  propose-IsConsistent s s' r env info terms v h =
      let p = propose-IsProposed env info terms s r s' h in
      let m = offer_map.range s.counter_offers in
      let q = IsConsistent-IsRequest s p.active v p.requested p.unfunded in
      let decision = determine_eviction_candidate-IsDecision m terms p.candidate p.decided in
      let absent : get info.sender m ≡ none =
        ground (arith, offer_map.may_load_lem s.counter_offers info.sender, p.absent) in
      let e =
        evict-IsEvicted s p.active terms info.sender p.candidate p.middle (ground arith) q decision
          absent p.evicted in
      let debt_here : flatten p.middle.outstanding_debt ≡ e.debt = ground (arith, e.stored) in
      bind-ok (added_debt (flatten p.middle.outstanding_debt) terms.liquidity_coin) _ p.added
        λ debt added h1.
          let larger =
            insert-IsRequest p.active e.debt debt info.sender terms (offer_map.range e.offers)
              e.request (validate_counter_offer-IsOfferFor p.active terms p.valid) e.absent e.room
              (ground (arith, debt_here)) in
          let final : s' ≡ record s {
            counter_offers = offer_map.save e.offers info.sender terms;
            outstanding_debt = some debt;
          } =
            ground (arith, p.stored, e.stored) in
          ground (
            arith,
            larger,
            final,
            p.requested,
            p.unfunded,
            offer_map.range-save e.offers info.sender terms,
          )
