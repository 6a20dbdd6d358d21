-- ===== src/Escrow/Counting.antt =====
-- Coins that come with a call and coins that its messages send, in one denom.
use wasm_vault.Prelude.{
  ℕ, ◌+◌, ◌≡◌, refl, String, Option, none, some, List, [], ◌∷◌, map, sum_of, str_eq, eq_iff,
  filter_by, if◌then◌else◌, flatten, arith,
}
use wasm_vault.BTreeMap
use wasm_vault.BTreeMap.{BTreeMap, get, remove, IsAscending}
use wasm_vault.Types.{Coin, OpenInterest, CosmosMsg, bank_send, MessageInfo}
use wasm_vault.Errors.{ok, bind-ok}
use wasm_vault.Uint.{add_u256}
use wasm_vault.Storage.{Storage}
use wasm_vault.OpenInterest.Lending.{
  add_amounts, received_funds, refund, validate_liquidity_funding,
}
use wasm_vault.CounterOffer.Helpers.{Offer, validate_counter_offer_escrow}
use wasm_vault.CounterOffer.Accept.{other_offers}
use wasm_vault.Invariant.Defs.{IsEscrow, total_liquidity}
use wasm_vault.Invariant.Escrow.{AreOffers}

abbrev pub amount_in : String → List Coin → ℕ
amount_in denom = sum_of (λ (coin : Coin). if str_eq coin.denom denom then coin.amount else 0)

-- What a message sends out of the vault in the denom.
abbrev pub sent : String → CosmosMsg → ℕ
sent denom (bank_send to_address amount) = amount_in denom amount
sent denom _ = 0

abbrev pub sent_in : String → List CosmosMsg → ℕ
sent_in denom = sum_of (sent denom)

-- What the offers of an unfunded request hold.
abbrev pub held : Option Coin → ℕ
held none = 0
held (some debt) = debt.amount

abbrev pub escrow_of : {M : Type 0} → Storage M → ℕ
escrow_of s = elim (flatten s.lender) [ none ↦ held (flatten s.outstanding_debt) | some lender ↦ 0 ]

add_amounts-eq_ok :
    (acc n : ℕ) (denom : String) (coins : List Coin)
    → add_amounts acc (filter_by (λ (coin : Coin). str_eq coin.denom denom) coins) ≡ ok n
    → n ≡ acc + amount_in denom coins
unfolding add_amounts add_u256
add_amounts-eq_ok acc n denom [] h = ground arith
add_amounts-eq_ok acc n denom (coin ∷ coins) h = ground (
  arith,
  add_amounts-eq_ok (acc + coin.amount) n denom coins,
  add_amounts-eq_ok acc n denom coins,
)

pub received_funds-eq_ok :
    (info : MessageInfo) (denom : String) (n : ℕ)
    → received_funds info denom ≡ ok n
    → n ≡ amount_in denom info.funds
unfolding received_funds
received_funds-eq_ok info denom n h = omega (arith, add_amounts-eq_ok 0 n denom info.funds h)

-- An offer passes only with exactly its liquidity attached.
pub validate_counter_offer_escrow-exact :
    (info : MessageInfo) (terms : OpenInterest)
    → validate_counter_offer_escrow info terms ≡ ok tt
    → amount_in terms.liquidity_coin.denom info.funds ≡ terms.liquidity_coin.amount
unfolding validate_counter_offer_escrow
validate_counter_offer_escrow-exact info terms h =
    bind-ok (received_funds info terms.liquidity_coin.denom) _ h λ n received h1.
      ground (arith, received_funds-eq_ok info terms.liquidity_coin.denom n received)

-- So it is with a funding.
pub validate_liquidity_funding-exact :
    (info : MessageInfo) (coin : Coin)
    → validate_liquidity_funding info coin ≡ ok tt
    → amount_in coin.denom info.funds ≡ coin.amount
unfolding validate_liquidity_funding
validate_liquidity_funding-exact info coin h =
    bind-ok (received_funds info coin.denom) _ h
      λ n received h1. ground (arith, received_funds-eq_ok info coin.denom n received)

module _ (active : OpenInterest) where
  -- The refunds of offers on one request send their total.
  pub sent_in-refunds :
      (offers : List Offer)
      → AreOffers active offers
      → sent_in active.liquidity_coin.denom (map refund offers) ≡ total_liquidity offers
  sent_in-refunds [] all = refl
  sent_in-refunds (o ∷ offers) all = ground (
    arith,
    sent_in-refunds offers all.1,
    eq_iff o.1.liquidity_coin.denom active.liquidity_coin.denom,
  )

  -- The recorded debt of a request is the total of its offers.
  pub held-eq-total :
      (debt : Option Coin) (offers : List Offer)
      → IsEscrow active debt offers
      → held debt ≡ total_liquidity offers
  held-eq-total none offers h = ground arith
  held-eq-total (some debt) offers h = ground arith

  pub All-other_offers :
      (k : String) (offers : List Offer)
      → AreOffers active offers
      → AreOffers active (other_offers k offers)
  All-other_offers k [] all = tt
  All-other_offers k (o ∷ offers) all = ground (arith, All-other_offers k offers all.1)

other_offers_absent :
    (k : String) (m : BTreeMap OpenInterest) → get k m ≡ none → other_offers k m ≡ m
unfolding get
other_offers_absent k [] h = refl
other_offers_absent k ((j, w) ∷ m) h =
    ground (arith, eq_iff k j, eq_iff j k, other_offers_absent k m)

-- Without the lender, the offers are the map without the lender's key.
pub other_offers-eq-remove :
    (k : String) (m : BTreeMap OpenInterest) → IsAscending m → other_offers k m ≡ remove k m
unfolding remove
other_offers-eq-remove k [] h = refl
other_offers-eq-remove k ((j, w) ∷ m) h = ground (
  arith,
  eq_iff k j,
  eq_iff j k,
  other_offers-eq-remove k m h.1,
  other_offers_absent j m (BTreeMap.get_below j m h.0),
)
