-- ===== src/Query.antt =====
-- src/contract/query.rs: what a client may read. `sort_by` is the standard library's stable sort; any
-- stable sort gives the same list, so it is an insertion sort here.
pub mod Sorting
use Prim.Native.Nat.{Ordering, compare as compare_ℕ}
use Prim.Native.String.{compare, then as then_with}
use wasm_vault.Prelude.{ℕ, String, Option, none, some, List, [], ◌∷◌, map, if◌then◌else◌, is_empty}
use wasm_vault.Types.{OpenInterest, CounterOffer, InfoResponse, Env, QueryMsg}
use wasm_vault.Errors.{Result, ok, ◌>>=◌}
use wasm_vault.Host.{Host, try}
use wasm_vault.Storage.{OfferMap, Storage, load}
use wasm_vault.CounterOffer.Helpers.{Offer}

-- More liquidity first, then the lower address.
unfoldable pub compare_offers : CounterOffer → CounterOffer → Ordering
compare_offers a b =
    then_with
      (compare_ℕ b.open_interest.liquidity_coin.amount a.open_interest.liquidity_coin.amount)
      (compare a.proposer b.proposer)

-- A new element goes behind those that are not greater.
unfoldable pub insert_sorted : CounterOffer → List CounterOffer → List CounterOffer
insert_sorted x [] = x ∷ []
insert_sorted x (y ∷ ys) = elim (compare_offers x y) [
  | Ordering.lt ↦ x ∷ y ∷ ys
  | Ordering.eq ↦ x ∷ y ∷ ys
  | Ordering.gt ↦ y ∷ insert_sorted x ys
]

-- From the back, so that equal elements keep their order.
unfoldable pub sort_offers : List CounterOffer → List CounterOffer
sort_offers [] = []
sort_offers (x ∷ xs) = insert_sorted x (sort_offers xs)

abbrev pub to_counter_offer : Offer → CounterOffer
to_counter_offer (addr, open_interest) = record { proposer = addr; open_interest = open_interest }

module _ {M : Type 0} ⦃offer_map : OfferMap M⦄ where
  unfoldable pub collect_info : Storage M → Result InfoResponse
  collect_info s = do
    owner ← load s.owner
    lender ← load s.lender
    open_interest ← load s.open_interest
    let offers = sort_offers (map to_counter_offer (offer_map.range s.counter_offers))
    ok (record {
      message = "wasm_vault";
      owner = owner;
      lender = lender;
      open_interest = open_interest;
      counter_offers = if is_empty offers then none else some offers;
    })

  unfoldable pub query : Host → Env → QueryMsg → Storage M → Result String
  query host env QueryMsg.info s = do response ← collect_info s; try (host.to_json_binary response)
