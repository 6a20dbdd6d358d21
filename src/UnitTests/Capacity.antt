-- ===== src/UnitTests/Capacity.antt =====
-- The tests of src/contract/counter_offer/propose.rs that fill the table of counter offers.
use Prim.Native.Nat.{Ordering, ◌%◌}
use Prim.Native.String.{◌++◌, slice, compare}
use wasm_vault.Prelude.{
  ℕ, ◌+◌, ◌/◌, ◌≡◌, refl, String, zero, suc, ltb, leb, ◌==◌, str_eq, if◌then◌else◌, Bool, true,
  false, ◌&&◌, ◌||◌, Option, none, some, List, [], ◌∷◌, flatten, is_some, ◌-◌,
}
use wasm_vault.BTreeMap.{get, insert, remove}
use wasm_vault.Types.{
  Addr, Coin, OpenInterest, CosmosMsg, bank_send, Attribute, AttrValue, Response,
  max_counter_offers,
}
use wasm_vault.Errors.{Result, ok, err, panic, expect, counter_offer_not_competitive, ◌>>=◌}
use wasm_vault.Uint.{add_u256, checked_add, checked_sub, increment_u8, fits}
use wasm_vault.OpenInterest.Lending.{received_funds, add_amounts}
use wasm_vault.CounterOffer.Helpers.{
  validate_counter_offer, validate_counter_offer_escrow, determine_eviction_candidate,
  snapshot_counter_offer_capacity, worst_offer, evict_from, add_outstanding_debt, added_debt,
  release_outstanding_debt, released_debt,
}
use wasm_vault.CounterOffer.Propose.{propose, evict}
use wasm_vault.Tests.Fixtures.{listed, Vault}
use wasm_vault.UnitTests.Mock.{Outcome, active, sample_coin}
use wasm_vault.UnitTests.Proposals.{ready, lowered, funded}

-- `format!("proposer{i}")`, for numbers of at most three digits
abbrev proposer : ℕ → Addr
proposer i =
    if ltb i 10
    then "proposer" ++ digit i
    else if ltb i 100
    then "proposer" ++ (digit (i / 10) ++ digit (i % 10))
    else "proposer" ++ (digit (i / 100) ++ (digit (i / 10 % 10) ++ digit (i % 10)))
  where
    digit : ℕ → String
    digit d = slice "0123456789" d (d + 1)

-- What the loop of the first test carries on, and whether its assertions held so far.
record Filling : Type 0 where
  vault : Vault
  expected_debt : ℕ
  lowest_offer : Option (Addr × Coin)
  holds : Bool

abbrev is_proposal : List Attribute → Bool
is_proposal [] = false
is_proposal (a ∷ rest) = str_eq a.key "action" && is_name a.value
  where
    is_name : AttrValue → Bool
    is_name (AttrValue.text name) = str_eq name "propose_counter_offer"
    is_name (AttrValue.num n) = false

abbrev is_empty : List CosmosMsg → Bool
is_empty [] = true
is_empty (m ∷ ms) = false

abbrev is_debt : ℕ → Option Coin → Bool
is_debt amount none = false
is_debt amount (some debt) = debt.amount == amount && str_eq debt.denom active.liquidity_coin.denom

abbrev lower_offer : Addr × Coin → Option (Addr × Coin) → Option (Addr × Coin)
lower_offer offer none = some offer
lower_offer offer (some worst) =
    if ltb offer.1.amount worst.1.amount
      || (offer.1.amount == worst.1.amount && str_ltb offer.0 worst.0)
    then some offer
    else some worst
  where
    str_ltb : String → String → Bool
    str_ltb a b = elim (compare a b) [ Ordering.lt ↦ true | _ ↦ false ]

-- `.expect(..)` on a result
abbrev succeeds : Outcome → Result (Response × Vault)
succeeds (ok done) = ok done
succeeds (err e) = panic
succeeds panic = panic

-- One proposal of the loop.
abbrev fill_next : ℕ → Filling → Result Filling
fill_next i f = do
  let offer = lowered (10 + i)
  done ← succeeds (funded (proposer i) offer f.vault)
  expected ← checked_add f.expected_debt offer.liquidity_coin.amount
  ok (record {
    vault = done.1;
    expected_debt = expected;
    lowest_offer = lower_offer (proposer i, offer.liquidity_coin) f.lowest_offer;
    holds =
        f.holds
        && is_proposal done.0.attributes
        && is_empty done.0.messages
        && is_debt expected (flatten done.1.outstanding_debt);
  })

abbrev fill : ℕ → Result Filling
fill zero = ok (record { vault = ready; expected_debt = 0; lowest_offer = none; holds = true })
fill (suc i) = fill i >>= fill_next i

-- What the last proposal of the first test leaves.
record Eviction : Type 0 where
  held : Bool
  lowest : Addr × Coin
  messages : List CosmosMsg
  debt : Option Coin
  expected : ℕ
  stored_evicted : Option OpenInterest
  stored_new : Bool

abbrev stores_offer_and_evicts_smallest_when_full : Result Eviction
stores_offer_and_evicts_smallest_when_full = do
  full ← fill max_counter_offers
  lowest ← expect full.lowest_offer
  done ← succeeds (funded "better-proposer" (lowered 5) full.vault)
  added ← checked_add full.expected_debt (lowered 5).liquidity_coin.amount
  expected ← checked_sub added lowest.1.amount
  ok (record {
    held = full.holds;
    lowest = lowest;
    messages = done.0.messages;
    debt = flatten done.1.outstanding_debt;
    expected = expected;
    stored_evicted = get lowest.0 done.1.counter_offers;
    stored_new = is_some (get "better-proposer" done.1.counter_offers);
  })

stores_offer_and_evicts_smallest_when_full_passes :
    stores_offer_and_evicts_smallest_when_full
    ≡ ok (record {
      held = true;
      lowest = ("proposer254", sample_coin 736 "uusd");
      messages = bank_send "proposer254" (sample_coin 736 "uusd" ∷ []) ∷ [];
      debt = some (sample_coin 220_324 "uusd");
      expected = 220_324;
      stored_evicted = none;
      stored_new = true;
    })
unfolding propose evict validate_counter_offer validate_counter_offer_escrow received_funds
    add_amounts add_u256 fits determine_eviction_candidate snapshot_counter_offer_capacity
    worst_offer increment_u8 evict_from add_outstanding_debt added_debt checked_add get insert
    release_outstanding_debt released_debt checked_sub remove
stores_offer_and_evicts_smallest_when_full_passes = refl

-- What the loops of the other two tests carry on: the vault and the least amount.
abbrev lower_amount : ℕ → Option ℕ → ℕ
lower_amount amount none = amount
lower_amount amount (some current) = if leb current amount then current else amount

abbrev fill_from : ℕ → ℕ → Result (Vault × Option ℕ)
fill_from decrement zero = ok (ready, none)
fill_from decrement (suc i) = do
  filled ← fill_from decrement i
  let offer = lowered (decrement + i)
  done ← succeeds (funded (proposer i) offer filled.0)
  ok (done.1, some (lower_amount offer.liquidity_coin.amount filled.1))

-- A late offer on a full table, of that much less than the least amount.
abbrev late_offer : ℕ → ℕ → Outcome
late_offer decrement less = do
  full ← fill_from decrement max_counter_offers
  lowest_amount ← expect full.1
  funded "late-proposer" (lowered (active.liquidity_coin.amount - (lowest_amount - less))) full.0

abbrev rejects_offer_that_would_be_immediately_evicted : Outcome
rejects_offer_that_would_be_immediately_evicted = late_offer 20 1

rejects_offer_that_would_be_immediately_evicted_passes :
    rejects_offer_that_would_be_immediately_evicted ≡ err (counter_offer_not_competitive 726 "uusd")
unfolding propose evict validate_counter_offer validate_counter_offer_escrow received_funds
    add_amounts add_u256 fits determine_eviction_candidate snapshot_counter_offer_capacity
    worst_offer increment_u8 evict_from add_outstanding_debt added_debt checked_add get insert
rejects_offer_that_would_be_immediately_evicted_passes = refl

abbrev rejects_equal_amount_when_full : Outcome
rejects_equal_amount_when_full = late_offer 15 0

rejects_equal_amount_when_full_passes :
    rejects_equal_amount_when_full ≡ err (counter_offer_not_competitive 731 "uusd")
unfolding propose evict validate_counter_offer validate_counter_offer_escrow received_funds
    add_amounts add_u256 fits determine_eviction_candidate snapshot_counter_offer_capacity
    worst_offer increment_u8 evict_from add_outstanding_debt added_debt checked_add get insert
rejects_equal_amount_when_full_passes = refl
