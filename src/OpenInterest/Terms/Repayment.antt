-- ===== src/OpenInterest/Terms/Repayment.antt =====
-- The amounts of a repayment, src/contract/open_interest/helpers.rs.
use Prim.Native.Nat.{Ordering}
use Prim.Native.String.{compare}
use wasm_vault.Prelude.{
  ℕ, ◌<◌, ◌^◌, ◌≡◌, String, List, [], ◌∷◌, All, sum_of, arith, eq_iff, str_eq, if◌then◌else◌,
}
use wasm_vault.BTreeMap.{get, insert, compare_flip}
use wasm_vault.Types.{Coin, OpenInterest}
use wasm_vault.Errors.{ok}
use wasm_vault.Uint.{try_u128, fits, checked_add}
use wasm_vault.OpenInterest.Terms.{
  RepaymentAmount, accumulate_repayment_requirement, repayment_requirements, convert_requirements,
  build_repayment_amounts,
}
use wasm_vault.Escrow.Counting.{amount_in}

abbrev pub repaid_in : String → List RepaymentAmount → ℕ
repaid_in d = sum_of (λ (a : RepaymentAmount). if str_eq a.denom d then a.coin_amount else 0)

-- Both numbers of a repayment amount are one number of 128 bits, and none of its denoms comes twice.
abbrev pub IsExact : List RepaymentAmount → Type 0
IsExact [] = Unit
IsExact (a ∷ rest) =
    (a.coin_amount ≡ a.requested_amount)
    × (a.coin_amount < 2 ^ 128)
    × All (λ (b : RepaymentAmount). compare a.denom b.denom ≡ Ordering.lt) rest
    × IsExact rest

-- The liquidity and the interest of the terms.
abbrev pub owed_coins : OpenInterest → List Coin
owed_coins terms = terms.liquidity_coin ∷ terms.interest_coin ∷ []

-- Whatever the denom, the amounts come to the liquidity and the interest in it: two coins of one denom
-- are added up, two denoms stay apart, in ascending order. Each amount fits a `Uint128`.
pub build_repayment_amounts-IsExact :
    (d : String) (terms : OpenInterest) (amounts : List RepaymentAmount)
    → build_repayment_amounts terms ≡ ok amounts
    → (repaid_in d amounts ≡ amount_in d (owed_coins terms)) × IsExact amounts
unfolding build_repayment_amounts repayment_requirements accumulate_repayment_requirement
    convert_requirements try_u128 fits checked_add get insert
build_repayment_amounts-IsExact d terms amounts h = ground (
  arith,
  eq_iff terms.interest_coin.denom terms.liquidity_coin.denom,
  eq_iff terms.liquidity_coin.denom d,
  eq_iff terms.interest_coin.denom d,
  compare_flip terms.interest_coin.denom terms.liquidity_coin.denom,
)
