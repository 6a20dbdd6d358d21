-- ===== src/Invariant/Defs.antt =====
-- What holds of a vault between two transactions: the phases of a loan, and what is stored in each.
use wasm_vault.Prelude.{
  ℕ, ◌<◌, ◌≤◌, ◌≡◌, ◌≢◌, true, Option, none, some, List, [], All, sum_of, length, flatten, is_some,
}
use wasm_vault.BTreeMap.{IsAscending}
use wasm_vault.Types.{
  Addr, Coin, OpenInterest, max_counter_offers, max_liquidation_unbonding_seconds,
}
use wasm_vault.Storage.{OfferMap, Storage}
use wasm_vault.CounterOffer.Helpers.{Offer, liquidity}

-- Terms that a loan may have.
pub record IsLoan (terms : OpenInterest) : Type 0 where
  pub liquidity_pos : 0 < terms.liquidity_coin.amount
  pub interest_pos : 0 < terms.interest_coin.amount
  pub collateral_pos : 0 < terms.collateral.amount
  pub duration_pos : 0 < terms.expiry_duration

-- An offer on a request: less liquidity, and the same terms otherwise.
pub record IsOfferFor (active offer : OpenInterest) : Type 0 where
  pub same_denom : offer.liquidity_coin.denom ≡ active.liquidity_coin.denom
  pub same_interest : offer.interest_coin ≡ active.interest_coin
  pub same_collateral : offer.collateral ≡ active.collateral
  pub same_duration : offer.expiry_duration ≡ active.expiry_duration
  pub some_liquidity : 0 < offer.liquidity_coin.amount
  pub less_liquidity : offer.liquidity_coin.amount < active.liquidity_coin.amount

abbrev pub total_liquidity : List Offer → ℕ
total_liquidity = sum_of liquidity

-- The escrow of the offers, as the contract records it: nothing if there are none.
abbrev pub IsEscrow : OpenInterest → Option Coin → List Offer → Type 0
IsEscrow active none offers = offers ≡ []
IsEscrow active (some debt) offers =
    (offers ≢ [])
    × (debt.denom ≡ active.liquidity_coin.denom)
    × (debt.amount ≡ total_liquidity offers)

-- What an expired loan still owes: part of its collateral.
abbrev pub IsOwed : OpenInterest → Option Coin → Type 0
IsOwed active none = Unit
IsOwed active (some debt) =
    (debt.denom ≡ active.collateral.denom)
    × (0 < debt.amount)
    × (debt.amount ≤ active.collateral.amount)

-- By the open interest, the lender, the outstanding debt, the expiry, the time of the last
-- liquidation unbonding, and the counter offers.
abbrev pub Phase :
    Option OpenInterest → Option Addr → Option Coin → Option ℕ → Option ℕ → List Offer → Type 0
Phase none none debt expiry unbonding offers =
    (debt ≡ none) × (expiry ≡ none) × (unbonding ≡ none) × (offers ≡ [])
Phase none (some lender) debt expiry unbonding offers = ⊥
Phase (some active) none debt expiry unbonding offers =
    IsLoan active
    × (expiry ≡ none)
    × (unbonding ≡ none)
    × All (λ (o : Offer). IsOfferFor active o.1) offers
    × (length offers ≤ max_counter_offers)
    × IsEscrow active debt offers
Phase (some active) (some lender) debt expiry unbonding offers =
    IsLoan active × (is_some expiry ≡ true) × (offers ≡ []) × IsOwed active debt

-- The items that `load` reads are there.
pub record IsSaved {M : Type 0} (s : Storage M) : Type 0 where
  pub owner : is_some s.owner ≡ true
  pub lender : is_some s.lender ≡ true
  pub outstanding_debt : is_some s.outstanding_debt ≡ true
  pub open_interest : is_some s.open_interest ≡ true
  pub open_interest_expiry : is_some s.open_interest_expiry ≡ true

abbrev pub IsCapped : Option ℕ → Type 0
IsCapped none = ⊥
IsCapped (some duration) = duration ≤ max_liquidation_unbonding_seconds

module _ {M : Type 0} ⦃offer_map : OfferMap M⦄ where
  abbrev pub PhaseOf : Storage M → Type 0
  PhaseOf s =
      Phase (flatten s.open_interest) (flatten s.lender) (flatten s.outstanding_debt)
        (flatten s.open_interest_expiry) (flatten s.last_liquidation_unbonding)
        (offer_map.range s.counter_offers)

  pub record IsConsistent (s : Storage M) : Type 0 where
    pub saved : IsSaved s
    pub capped : IsCapped s.liquidation_unbonding_duration
    pub ascending : IsAscending (offer_map.range s.counter_offers)
    pub phase : PhaseOf s
