-- ===== src/Ledger/Settling.antt =====
-- The messages of src/contract/execute.rs that pay refunds alone, carried out by the chain.
use wasm_vault.Prelude.{
  ◌+◌, ◌≤◌, ◌≡◌, refl, Option, none, some, List, [], ◌∷◌, map, String, arith, All-IsIn, is_some,
}
use wasm_vault.BTreeMap
use wasm_vault.BTreeMap.{get, remove}
use wasm_vault.Types.{Addr, Coin, OpenInterest, CosmosMsg, ExecuteMsg, Env, MessageInfo, Response}
use wasm_vault.Errors.{ok, bind-ok, fail_if, ok_or, lender_already_set, no_open_interest}
use wasm_vault.Host.{Host}
use wasm_vault.Storage.{OfferMap, Storage, load}
use wasm_vault.Helpers.{require_owner}
use wasm_vault.OpenInterest.Lending.{refund}
use wasm_vault.OpenInterest.Fund.Steps.{fund-IsFunded}
use wasm_vault.OpenInterest.Close.{close}
use wasm_vault.CounterOffer.Helpers.{Offer}
use wasm_vault.CounterOffer.Helpers.Eviction.{determine_eviction_candidate-IsDecision, IsDecision}
use wasm_vault.CounterOffer.Propose.{eviction_refund}
use wasm_vault.CounterOffer.Propose.Steps.{propose-IsProposed}
use wasm_vault.CounterOffer.Accept.Steps.{accept-IsAccepted}
use wasm_vault.CounterOffer.Cancel.Steps.{cancel-IsCancelled}
use wasm_vault.Execute.{execute, Call}
use wasm_vault.Invariant.Defs.{IsConsistent, IsOfferFor}
use wasm_vault.Invariant.Escrow.{AreOffers}
use wasm_vault.Invariant.Proposals.{IsConsistent-IsRequest, offered-unlent}
use wasm_vault.Escrow.Counting.{amount_in, sent_in, escrow_of, sent_in-refunds}
use wasm_vault.Escrow.Offers.{propose-conserves, cancel-conserves}
use wasm_vault.Escrow.Endings.{fund-refunds, close-refunds, accept-refunds}
use wasm_vault.Ledger.{Balance, credit, deliver, World, transact}
use wasm_vault.Ledger.Outlays.{HasEscrowOf, escrow-covered}
use wasm_vault.Ledger.Solvency.{IsSolvent}
use wasm_vault.Ledger.Refunds.{deliver-refunds}

-- The messages that pay nothing but refunds of counter offers.
abbrev pub PaysRefunds : ExecuteMsg → Type 0
PaysRefunds (ExecuteMsg.fund_open_interest terms) = Unit
PaysRefunds ExecuteMsg.close_open_interest = Unit
PaysRefunds (ExecuteMsg.propose_counter_offer terms) = Unit
PaysRefunds (ExecuteMsg.accept_counter_offer proposer terms) = Unit
PaysRefunds ExecuteMsg.cancel_counter_offer = Unit
PaysRefunds _ = ⊥

module _ {M : Type 0} ⦃offer_map : OfferMap M⦄ (s s' : Storage M) (r : Response)
    (v : IsConsistent s) (vault : Addr) (gains : CosmosMsg → Balance) (before : Balance)
    (coins : List Coin) (held : HasEscrowOf s before) where
  abbrev Delivers : Type 0
  Delivers = (left : Balance) × (deliver vault gains r.messages (credit coins before) ≡ some left)

  -- Refunds within the escrow and what comes in.
  refunds-Delivers :
      (active : OpenInterest) (offers : List Offer)
      → s.open_interest ≡ some (some active)
      → s.lender ≡ some none
      → r.messages ≡ map refund offers
      → AreOffers active offers
      → sent_in active.liquidity_coin.denom r.messages
        ≤ escrow_of s + amount_in active.liquidity_coin.denom coins
      → Delivers
  refunds-Delivers active offers asked unfunded messages all within =
      let covered = escrow-covered s active v asked unfunded before held in
      let total = sent_in-refunds active offers all in
      let paid =
        deliver-refunds active vault gains offers (credit coins before) all
          (ground (arith, messages, covered, total)) in
      (paid.0, ground (arith, messages, paid.1))

module _ {M : Type 0} ⦃offer_map : OfferMap M⦄ (host : Host) (env : Env) (info : MessageInfo)
    (s s' : Storage M) (r : Response) (v : IsConsistent s) (gains : CosmosMsg → Balance)
    (before : Balance) (held : HasEscrowOf s before) where
  abbrev Paid : Type 0
  Paid = Delivers s s' r v env.contract_address gains before info.funds held

  covered :
      (active : OpenInterest) (offers : List Offer)
      → s.open_interest ≡ some (some active)
      → s.lender ≡ some none
      → r.messages ≡ map refund offers
      → AreOffers active offers
      → sent_in active.liquidity_coin.denom r.messages
        ≤ escrow_of s + amount_in active.liquidity_coin.denom info.funds
      → Paid
  covered = refunds-Delivers s s' r v env.contract_address gains before info.funds held

  propose-pays :
      (terms : OpenInterest)
      → execute host env info (ExecuteMsg.propose_counter_offer terms) s ≡ ok (r, s')
      → Paid
  unfolding execute
  propose-pays terms h =
      let p = propose-IsProposed env info terms s r s' h in
      let q = IsConsistent-IsRequest s p.active v p.requested p.unfunded in
      let conserved = propose-conserves s s' r env info terms p.active v p.requested h in
      let m = offer_map.range s.counter_offers in
      let decided = determine_eviction_candidate-IsDecision m terms p.candidate p.decided in
      by_candidate p.active p.requested p.unfunded q.all conserved.1 p.candidate p.sent decided
    where
      by_candidate :
          (active : OpenInterest)
          → s.open_interest ≡ some (some active)
          → s.lender ≡ some none
          → AreOffers active (offer_map.range s.counter_offers)
          → escrow_of s' + sent_in active.liquidity_coin.denom r.messages
            ≡ escrow_of s + amount_in active.liquidity_coin.denom info.funds
          → (candidate : Option Offer) → r.messages ≡ eviction_refund candidate
          → IsDecision (offer_map.range s.counter_offers) terms candidate
          → Paid
      by_candidate active asked unfunded all conserved none sent d =
          covered active [] asked unfunded sent tt (omega arith)
      by_candidate active asked unfunded all conserved (some c) sent d =
          let offer =
            All-IsIn (λ (o : Offer). IsOfferFor active o.1) c (offer_map.range s.counter_offers) all
              d.1 in
          covered active (c ∷ []) asked unfunded sent (offer, tt) (omega arith)

  cancel-pays : execute host env info ExecuteMsg.cancel_counter_offer s ≡ ok (r, s') → Paid
  unfolding execute
  cancel-pays h =
      let c = cancel-IsCancelled env info s r s' h in
      let unlent = offered-unlent s c.active info.sender c.offer v c.requested c.found in
      let q = IsConsistent-IsRequest s c.active v c.requested unlent in
      let conserved = cancel-conserves s s' r env info c.offer unlent c.found h in
      let stored : get info.sender (offer_map.range s.counter_offers) ≡ some c.offer =
        ground (arith, c.found, offer_map.may_load_lem s.counter_offers info.sender) in
      let offer =
        BTreeMap.All-get (IsOfferFor c.active) info.sender c.offer
          (offer_map.range s.counter_offers) q.all stored in
      let total = sent_in-refunds c.active ((info.sender, c.offer) ∷ []) (offer, tt) in
      covered c.active ((info.sender, c.offer) ∷ []) c.requested unlent conserved.0 (offer, tt)
        (ground (arith, conserved.0, conserved.1, total))

  fund-pays :
      (terms : OpenInterest)
      → execute host env info (ExecuteMsg.fund_open_interest terms) s ≡ ok (r, s')
      → Paid
  unfolding execute
  fund-pays terms h =
      let f = fund-IsFunded host env info terms s r s' h in
      let q = IsConsistent-IsRequest s terms v f.requested f.unfunded in
      let refunds = fund-refunds s s' r terms v f.requested host env info h in
      covered terms (offer_map.range s.counter_offers) f.requested f.unfunded f.sent q.all
        (omega (arith, refunds.3))

  close-pays : execute host env info ExecuteMsg.close_open_interest s ≡ ok (r, s') → Paid
  unfolding execute close
  close-pays h = bind-ok (require_owner s info) _ h λ owner _ h1.
      bind-ok (load s.lender) _ h1 λ present is_present h2.
        bind-ok (fail_if (is_some present) lender_already_set) _ h2 λ _ free h3.
          bind-ok (load s.open_interest) _ h3 λ stored is_stored h4.
            bind-ok (ok_or stored no_open_interest) _ h4 λ active is_active h5.
              let asked : s.open_interest ≡ some (some active) = ground arith in
              let unfunded : s.lender ≡ some none = ground arith in
              let q = IsConsistent-IsRequest s active v asked unfunded in
              let refunds = close-refunds s s' r active v asked info h in
              covered active (offer_map.range s.counter_offers) asked unfunded refunds.1 q.all
                (omega (arith, refunds.2))

  accept-pays :
      (proposer : String) (terms : OpenInterest)
      → execute host env info (ExecuteMsg.accept_counter_offer proposer terms) s ≡ ok (r, s')
      → Paid
  unfolding execute
  accept-pays proposer terms h =
      let a = accept-IsAccepted host env info proposer terms s r s' h in
      let m = offer_map.range s.counter_offers in
      let q = IsConsistent-IsRequest s a.active v a.requested a.unfunded in
      let refunds =
        accept-refunds s s' r a.active v a.requested host env info proposer terms a.lender
          a.validated h in
      covered a.active (remove a.lender m) a.requested a.unfunded refunds.1
        (BTreeMap.All-remove (λ (o : Offer). IsOfferFor a.active o.1) a.lender m q.all)
        (omega (arith, refunds.2))

  execute-pays :
      (msg : ExecuteMsg) → PaysRefunds msg → execute host env info msg s ≡ ok (r, s') → Paid
  execute-pays (ExecuteMsg.fund_open_interest terms) refunding h = fund-pays terms h
  execute-pays ExecuteMsg.close_open_interest refunding h = close-pays h
  execute-pays (ExecuteMsg.propose_counter_offer terms) refunding h = propose-pays terms h
  execute-pays (ExecuteMsg.accept_counter_offer proposer terms) refunding h =
      accept-pays proposer terms h
  execute-pays ExecuteMsg.cancel_counter_offer refunding h = cancel-pays h
  execute-pays msg refunding h = absurd refunding

-- A funding, a close, a proposal, an acceptance or a cancellation that a solvent vault takes is never
-- undone for want of coins: the refunds of its response are all paid, and the vault has the new state.
pub transact-settles :
    {M : Type 0} ⦃offer_map : OfferMap M⦄
    → (c : Call) (gains : CosmosMsg → Balance) (w : World M) (s' : Storage M) (r : Response)
    → IsSolvent w
    → PaysRefunds c.msg
    → execute c.host c.env c.info c.msg w.vault ≡ ok (r, s')
    → (transact c gains w).vault ≡ s'
unfolding transact
transact-settles c gains w s' r v refunding h =
    let (left, done) =
      execute-pays c.host c.env c.info w.vault s' r v.consistent gains w.balance v.escrowed c.msg
        refunding h in
    rw h (rw done refl)
