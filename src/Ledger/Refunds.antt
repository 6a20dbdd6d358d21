-- ===== src/Ledger/Refunds.antt =====
-- The refunds of counter offers, carried out against a balance.
use wasm_vault.Prelude.{
  ◌+◌, ◌≤◌, ◌≡◌, refl, inl, inr, some, List, [], ◌∷◌, map, str_eq, arith, eq_refl, Bool-cases,
}
use wasm_vault.Types.{Addr, OpenInterest, CosmosMsg}
use wasm_vault.OpenInterest.Lending.{refund}
use wasm_vault.CounterOffer.Helpers.{Offer}
use wasm_vault.Invariant.Defs.{IsOfferFor, total_liquidity}
use wasm_vault.Invariant.Escrow.{AreOffers}
use wasm_vault.Ledger.{Balance, debit, spend, outlay, deliver}

module _ (active : OpenInterest) (vault : Addr) (gains : CosmosMsg → Balance) where
  -- One refund that is covered.
  outlay-refund :
      (o : Offer) (balance : Balance)
      → IsOfferFor active o.1
      → o.1.liquidity_coin.amount ≤ balance active.liquidity_coin.denom
      → (left : Balance) × (outlay vault (refund o) balance ≡ some left)
        × (balance active.liquidity_coin.denom
            ≤ left active.liquidity_coin.denom + o.1.liquidity_coin.amount)
  unfolding outlay spend
  outlay-refund o balance offer covered = elim (Bool-cases (str_eq o.0 vault)) [
    | inl own ↦ (balance, ground (arith, own, offer.same_denom), omega arith)
    | inr other ↦ (
      debit o.1.liquidity_coin balance,
      ground (arith, other, offer.same_denom),
      ground (arith, offer.same_denom, eq_refl active.liquidity_coin.denom),
    )
  ]

  -- Refunds whose sum the balance covers are all paid.
  pub deliver-refunds :
      (offers : List Offer) (balance : Balance)
      → AreOffers active offers
      → total_liquidity offers ≤ balance active.liquidity_coin.denom
      → (left : Balance) × (deliver vault gains (map refund offers) balance ≡ some left)
  unfolding deliver
  deliver-refunds [] balance all covered = (balance, refl)
  deliver-refunds (o ∷ offers) balance all covered =
      let paid = outlay-refund o balance all.0 (omega arith) in
      let grown : Balance = λ d. paid.0 d + gains (refund o) d in
      let rest = deliver-refunds offers grown all.1 (omega (arith, paid.2)) in
      (rest.0, ground (arith, paid.1, rest.1))
