-- ===== src/Uint.antt =====
-- The arithmetic of the machine integers behind `Uint128`, `Uint256` and `u8`: a checked operation
-- fails out of range, a plain one panics (the release profile keeps `overflow-checks`).
use wasm_vault.Prelude.{
  ℕ, ◌+◌, ◌-◌, ◌^◌, ◌<◌, ◌≤◌, ◌≡◌, ◌≢◌, Bool, Option, none, some, arith, ltb, if◌then◌else◌,
}
use wasm_vault.Errors.{Result, ok, err, panic, std, overflow}

unfoldable pub fits : ℕ → ℕ → Bool
fits bits n = ltb n (2 ^ bits)

-- `Uint256::checked_add`, its error converted by `StdError::from`
unfoldable pub checked_add : ℕ → ℕ → Result ℕ
checked_add a b = if fits 256 (a + b) then ok (a + b) else err (std overflow)

unfoldable pub checked_sub : ℕ → ℕ → Result ℕ
checked_sub a b = if ltb a b then err (std overflow) else ok (a - b)

-- `Uint256 + Uint256`
unfoldable pub add_u256 : ℕ → ℕ → Result ℕ
add_u256 a b = if fits 256 (a + b) then ok (a + b) else panic

-- `count += 1` on a `u8`
unfoldable pub increment_u8 : ℕ → Result ℕ
increment_u8 n = if fits 8 (n + 1) then ok (n + 1) else panic

-- `Uint128::try_from`
unfoldable pub try_u128 : ℕ → Option ℕ
try_u128 n = if fits 128 n then some n else none

module _ (a b : ℕ) where
  pub checked_add-eq_ok : {c : ℕ} → checked_add a b ≡ ok c → c ≡ a + b
  unfolding checked_add
  checked_add-eq_ok h = ground arith

  pub checked_add-ne-panic : checked_add a b ≢ panic
  unfolding checked_add
  checked_add-ne-panic h = ground arith

  pub checked_sub-eq_ok : {c : ℕ} → checked_sub a b ≡ ok c → c + b ≡ a
  unfolding checked_sub
  checked_sub-eq_ok h = ground arith

  pub checked_sub_of_le : b ≤ a → checked_sub a b ≡ ok (a - b)
  unfolding checked_sub
  checked_sub_of_le h = ground arith

  pub add_u256-eq_ok : {c : ℕ} → add_u256 a b ≡ ok c → c ≡ a + b
  unfolding add_u256
  add_u256-eq_ok h = ground arith

pub increment_u8_of_lt : (n : ℕ) → n < 255 → increment_u8 n ≡ ok (n + 1)
unfolding increment_u8 fits
increment_u8_of_lt n h = ground arith

pub try_u128-eq_some : (n : ℕ) {k : ℕ} → try_u128 n ≡ some k → (k ≡ n) × (n < 2 ^ 128)
unfolding try_u128 fits
try_u128-eq_some n h = ground arith

pub try_u128_of_lt : (n : ℕ) → n < 2 ^ 128 → try_u128 n ≡ some n
unfolding try_u128 fits
try_u128_of_lt n h = ground arith
