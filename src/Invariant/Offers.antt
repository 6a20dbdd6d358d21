-- ===== src/Invariant/Offers.antt =====
-- The invariant under the handlers of src/contract/counter_offer.
use wasm_vault.Prelude.{◌+◌, ◌<◌, ◌≤◌, ◌≡◌, String, Option, some, none, arith, length, flatten}
use wasm_vault.BTreeMap
use wasm_vault.BTreeMap.{BTreeMap, get, insert, remove, IsAscending}
use wasm_vault.Types.{Coin, Env, MessageInfo, OpenInterest, Response}
use wasm_vault.Errors.{ok}
use wasm_vault.Host.{Host}
use wasm_vault.Storage.{OfferMap, Storage}
use wasm_vault.CounterOffer.Helpers.{Offer, released_debt, added_debt}
use wasm_vault.CounterOffer.Accept.{accept}
use wasm_vault.CounterOffer.Accept.Steps.{accept-IsAccepted}
use wasm_vault.CounterOffer.Cancel.{cancel}
use wasm_vault.CounterOffer.Cancel.Steps.{cancel-IsCancelled}
use wasm_vault.Invariant.Defs.{IsConsistent, IsOfferFor, IsEscrow}
use wasm_vault.Invariant.Escrow.{AreOffers, released_debt-IsEscrow, added_debt-IsEscrow}

-- What the invariant says of an unfunded request.
pub record IsRequest (active : OpenInterest) (debt : Option Coin) (offers : BTreeMap OpenInterest)
    : Type 0 where
  pub all : AreOffers active offers
  pub fits : length offers ≤ 255
  pub escrow : IsEscrow active debt offers
  pub ascending : IsAscending offers

-- One offer leaves, and its liquidity the debt.
pub remove-IsRequest :
    (active : OpenInterest) (debt debt' : Option Coin) (k : String) (v : OpenInterest)
    (m : BTreeMap OpenInterest)
    → IsRequest active debt m
    → get k m ≡ some v
    → released_debt debt v.liquidity_coin ≡ ok debt'
    → IsRequest active debt' (remove k m) × (length (remove k m) + 1 ≡ length m)
remove-IsRequest active debt debt' k v m q found released =
    let shorter = BTreeMap.length-remove k v m found in
    (
      record {
        all = BTreeMap.All-remove (λ (o : Offer). IsOfferFor active o.1) k m q.all;
        fits = omega arith;
        escrow = released_debt-IsEscrow active k v debt debt' m q.all q.escrow found released;
        ascending = BTreeMap.remove-IsAscending k m q.ascending;
      },
      shorter,
    )

-- One offer enters a table with room, and its liquidity the debt.
pub insert-IsRequest :
    (active : OpenInterest) (debt debt' : Option Coin) (k : String) (v : OpenInterest)
    (m : BTreeMap OpenInterest)
    → IsRequest active debt m
    → IsOfferFor active v
    → get k m ≡ none
    → length m < 255
    → added_debt debt v.liquidity_coin ≡ ok debt'
    → IsRequest active debt' (insert k v m)
insert-IsRequest active debt debt' k v m q offer absent room added =
    let longer = BTreeMap.length-insert k v m absent in
    record {
      all = BTreeMap.All-insert (λ (o : Offer). IsOfferFor active o.1) k v m offer q.all;
      fits = omega arith;
      escrow = added_debt-IsEscrow active k v debt debt' m offer.same_denom q.escrow absent added;
      ascending = BTreeMap.insert-IsAscending k v m q.ascending;
    }

module _ {M : Type 0} ⦃offer_map : OfferMap M⦄ {s s' : Storage M} {r : Response} where
  pub accept-IsConsistent :
      (host : Host) (env : Env) (info : MessageInfo) (proposer : String) (terms : OpenInterest)
      → IsConsistent s
      → accept host env info proposer terms s ≡ ok (r, s')
      → IsConsistent s'
  accept-IsConsistent host env info proposer terms v h =
      let a = accept-IsAccepted host env info proposer terms s r s' h in
      ground (
        arith,
        a.requested,
        a.unfunded,
        a.stored,
        a.found,
        offer_map.range-clear s.counter_offers,
        offer_map.may_load_lem s.counter_offers a.lender,
        BTreeMap.All-get (IsOfferFor a.active) a.lender terms (offer_map.range s.counter_offers),
      )

  pub cancel-IsConsistent :
      (env : Env) (info : MessageInfo)
      → IsConsistent s
      → cancel env info s ≡ ok (r, s')
      → IsConsistent s'
  cancel-IsConsistent env info v h =
      let c = cancel-IsCancelled env info s r s' h in
      let m = offer_map.range s.counter_offers in
      ground (
        arith,
        c.requested,
        c.stored,
        c.found,
        c.released,
        offer_map.range-remove s.counter_offers info.sender,
        offer_map.may_load_lem s.counter_offers info.sender,
        BTreeMap.remove-IsAscending info.sender m v.ascending,
        BTreeMap.All-remove (λ (o : Offer). IsOfferFor c.active o.1) info.sender m,
        BTreeMap.length-remove info.sender c.offer m,
        released_debt-IsEscrow c.active info.sender c.offer (flatten s.outstanding_debt) c.debt m,
      )
