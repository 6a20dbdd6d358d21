-- ===== src/CounterOffer/Helpers/Eviction.antt =====
-- Which offer makes way for a new one.
use wasm_vault.Prelude.{
  ℕ, ◌+◌, ◌<◌, ◌≤◌, ◌≡◌, ◌≢◌, refl, Option, none, some, List, [], ◌∷◌, All, All-IsIn, IsIn, length,
  arith, ltb, if◌then◌else◌,
}
use wasm_vault.Types.{OpenInterest}
use wasm_vault.Errors.{ok, err, panic, counter_offer_not_competitive, bind-ok}
use wasm_vault.Uint.{increment_u8, increment_u8_of_lt}
use wasm_vault.CounterOffer.Helpers.{
  Offer, liquidity, worst_offer, snapshot_counter_offer_capacity, evict_from,
  determine_eviction_candidate,
}

-- No offer of the list has less liquidity than `worst`.
abbrev pub IsLeast : Offer → List Offer → Type 0
IsLeast worst = All (λ (o : Offer). liquidity worst ≤ liquidity o)

abbrev lesser : Offer → Offer → Offer
lesser entry worst = if ltb (liquidity entry) (liquidity worst) then entry else worst

pub worst_offer_lem :
    (count n : ℕ) (worst result : Offer) (entries : List Offer)
    → worst_offer count worst entries ≡ ok (n, result)
    → (n ≡ count + length entries)
      × IsIn result (worst ∷ entries)
      × IsLeast result (worst ∷ entries)
unfolding worst_offer increment_u8
worst_offer_lem count n worst result [] h = ground arith
worst_offer_lem count n worst result (e ∷ entries) h =
    ground (arith, worst_offer_lem (count + 1) n (lesser e worst) result entries)

-- The `u8` does not overflow on a table of at most 255 offers.
pub worst_offer_total :
    (count : ℕ) (worst : Offer) (entries : List Offer)
    → count + length entries ≤ 255
    → (r : ℕ × Offer) × (worst_offer count worst entries ≡ ok r)
unfolding worst_offer
worst_offer_total count worst [] h = ((count, worst), refl)
worst_offer_total count worst (e ∷ entries) h =
    let (r, found) = worst_offer_total (count + 1) (lesser e worst) entries (omega arith) in
    (r, ground (arith, increment_u8_of_lt count))

-- What the decision may be, on a table of `entries`.
abbrev pub IsDecision : List Offer → OpenInterest → Option Offer → Type 0
IsDecision entries proposed none = length entries < 255
IsDecision entries proposed (some worst) =
    (255 ≤ length entries)
    × IsIn worst entries
    × IsLeast worst entries
    × (liquidity worst < proposed.liquidity_coin.amount)

-- A decision keeps a table that has room, and otherwise names an offer of least liquidity, which the
-- new one exceeds.
pub determine_eviction_candidate-IsDecision :
    (entries : List Offer) (proposed : OpenInterest) (candidate : Option Offer)
    → determine_eviction_candidate entries proposed ≡ ok candidate
    → IsDecision entries proposed candidate
unfolding determine_eviction_candidate snapshot_counter_offer_capacity evict_from
determine_eviction_candidate-IsDecision [] proposed candidate h = ground arith
determine_eviction_candidate-IsDecision (first ∷ entries) proposed candidate h =
    bind-ok (snapshot_counter_offer_capacity (first ∷ entries)) _ h λ snapshot counted decided.
      bind-ok (worst_offer 1 first entries) _ counted
        λ r found last. let facts = worst_offer_lem 1 r.0 first r.1 entries found in ground arith

-- A table of at most 255 offers is never too large to decide on: the `u8` count does not overflow.
pub determine_eviction_candidate-ne-panic :
    (entries : List Offer) (proposed : OpenInterest)
    → length entries ≤ 255
    → determine_eviction_candidate entries proposed ≢ panic
unfolding determine_eviction_candidate snapshot_counter_offer_capacity evict_from
determine_eviction_candidate-ne-panic [] proposed fit h = ground arith
determine_eviction_candidate-ne-panic (first ∷ entries) proposed fit h =
    let (r, found) = worst_offer_total 1 first entries (omega arith) in ground arith

-- A full table refuses an offer that no stored one is below.
pub determine_eviction_candidate_full :
    (entries : List Offer) (proposed : OpenInterest)
    → length entries ≡ 255
    → All (λ (o : Offer). proposed.liquidity_coin.amount ≤ liquidity o) entries
    → (minimum : ℕ) × (determine_eviction_candidate entries proposed
        ≡ err (counter_offer_not_competitive minimum proposed.liquidity_coin.denom))
unfolding determine_eviction_candidate snapshot_counter_offer_capacity evict_from
determine_eviction_candidate_full [] proposed full above = absurd (omega arith)
determine_eviction_candidate_full (first ∷ entries) proposed full above =
    let (r, found) = worst_offer_total 1 first entries (omega arith) in
    let facts = worst_offer_lem 1 r.0 first r.1 entries found in
    let reached =
      All-IsIn (λ (o : Offer). proposed.liquidity_coin.amount ≤ liquidity o) r.1 (first ∷ entries)
        above facts.1 in
    (liquidity r.1, ground arith)
