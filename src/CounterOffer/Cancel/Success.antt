-- ===== src/CounterOffer/Cancel/Success.antt =====
-- When a cancellation succeeds, src/contract/counter_offer/cancel.rs.
use wasm_vault.Prelude.{
  ◌-◌, ◌≤◌, ◌≡◌, String, Option, some, none, [], ◌∷◌, flatten, arith, eq_refl, ◌==◌, if◌then◌else◌,
}
use wasm_vault.BTreeMap
use wasm_vault.BTreeMap.{BTreeMap, get, remove}
use wasm_vault.Types.{Coin, OpenInterest, Env, MessageInfo}
use wasm_vault.Errors.{ok}
use wasm_vault.Uint.{checked_sub_of_le}
use wasm_vault.Storage.{OfferMap, Storage}
use wasm_vault.CounterOffer.Helpers.{released_debt, release_outstanding_debt}
use wasm_vault.CounterOffer.Cancel.{cancel, cancel_response}
use wasm_vault.Invariant.Defs.{IsConsistent, IsOfferFor, IsEscrow}
use wasm_vault.Invariant.Escrow.{AreOffers, offered}
use wasm_vault.Invariant.Proposals.{IsConsistent-IsRequest}

-- The escrow covers each offer.
released_debt_of_IsEscrow :
    (active : OpenInterest) (k : String) (v : OpenInterest) (debt : Option Coin)
    (m : BTreeMap OpenInterest)
    → AreOffers active m
    → IsEscrow active debt m
    → get k m ≡ some v
    → (left : Option Coin) × (released_debt debt v.liquidity_coin ≡ ok left)
unfolding released_debt get
released_debt_of_IsEscrow active k v none [] all escrow found = absurd (ground arith)
released_debt_of_IsEscrow active k v none (o ∷ m) all escrow found = absurd (ground arith)
released_debt_of_IsEscrow active k v (some debt) m all escrow found =
    let covers : v.liquidity_coin.amount ≤ debt.amount =
      ground (arith, escrow, BTreeMap.sum_of-remove offered k v m found) in
    let offer = BTreeMap.All-get (IsOfferFor active) k v m all found in
    let amount = debt.amount - v.liquidity_coin.amount in
    (
      if amount == 0 then none else some (record debt { amount = amount }),
      ground (
        arith,
        escrow,
        checked_sub_of_le debt.amount v.liquidity_coin.amount covers,
        offer.same_denom,
        eq_refl v.liquidity_coin.denom,
      ),
    )

module _ {M : Type 0} ⦃offer_map : OfferMap M⦄ (env : Env) (info : MessageInfo)
    (active offer : OpenInterest) (s : Storage M) where
  -- The proposer of an offer that a consistent vault with a request holds can cancel it at any time:
  -- the call succeeds with the response that refunds it.
  pub cancel_of_offer :
      IsConsistent s
      → s.open_interest ≡ some (some active)
      → s.lender ≡ some none
      → offer_map.may_load s.counter_offers info.sender ≡ some offer
      → (s' : Storage M) × (cancel env info s ≡ ok (cancel_response info.sender offer, s'))
  unfolding cancel release_outstanding_debt
  cancel_of_offer v asked unfunded found =
      let m = offer_map.range s.counter_offers in
      let q = IsConsistent-IsRequest s active v asked unfunded in
      let held : get info.sender m ≡ some offer =
        ground (arith, offer_map.may_load_lem s.counter_offers info.sender) in
      let (left, released) =
        released_debt_of_IsEscrow active info.sender offer (flatten s.outstanding_debt) m q.all
          q.escrow held in
      (
        record s {
          outstanding_debt = some left;
          counter_offers = offer_map.remove s.counter_offers info.sender;
        },
        ground (arith, released),
      )
