-- ===== src/Types/Equality.antt =====
-- The derived `==` of the structs.
use wasm_vault.Prelude.{◌≡◌, true, arith, eq_iff, eq_refl}
use wasm_vault.Types.{Coin, OpenInterest, coin_eq, open_interest_eq}

pub open_interest_eq_refl : (a : OpenInterest) → open_interest_eq a a ≡ true
open_interest_eq_refl a = ground (
  arith,
  eq_refl a.liquidity_coin.denom,
  eq_refl a.interest_coin.denom,
  eq_refl a.collateral.denom,
)

pub coin_eq→eq : (a b : Coin) → coin_eq a b ≡ true → a ≡ b
coin_eq→eq a b h = ground (arith, eq_iff a.denom b.denom)

pub open_interest_eq→eq : (a b : OpenInterest) → open_interest_eq a b ≡ true → a ≡ b
open_interest_eq→eq a b h = ground (
  arith,
  eq_iff a.liquidity_coin.denom b.liquidity_coin.denom,
  eq_iff a.interest_coin.denom b.interest_coin.denom,
  eq_iff a.collateral.denom b.collateral.denom,
)
