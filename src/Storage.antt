-- ===== src/Storage.antt =====
-- src/state.rs: the items and the map that the contract keeps. cw-storage-plus is a dependency: an
-- `Item` is its bytes' value or nothing, and the `Map` of counter offers is the interface `OfferMap`.
use wasm_vault.Prelude.{ℕ, String, ◌≡◌, Option, none, some, []}
use wasm_vault.BTreeMap
use wasm_vault.BTreeMap.{BTreeMap}
use wasm_vault.Types.{Addr, Coin, OpenInterest}
use wasm_vault.Errors.{Result, ok, err, std, not_found}

-- `Map<&Addr, OpenInterest>`, with what its documentation says of each operation: it is an ordered
-- map, and `range` with no bounds gives its entries in ascending order of their keys.
pub record OfferMap (M : Type 0) : Type 0 where
  pub may_load : M → Addr → Option OpenInterest
  pub save : M → Addr → OpenInterest → M
  pub remove : M → Addr → M
  pub clear : M → M
  pub range : M → BTreeMap OpenInterest
  pub may_load_lem : (m : M) (k : Addr) → may_load m k ≡ BTreeMap.get k (range m)
  pub range-save :
      (m : M) (k : Addr) (v : OpenInterest) → range (save m k v) ≡ BTreeMap.insert k v (range m)
  pub range-remove : (m : M) (k : Addr) → range (remove m k) ≡ BTreeMap.remove k (range m)
  pub range-clear : (m : M) → range (clear m) ≡ []

-- An item that was never saved is `none`.
pub record Storage (M : Type 0) : Type 0 where
  pub contract_version : Option (String × String)
  pub owner : Option Addr
  pub lender : Option (Option Addr)
  pub outstanding_debt : Option (Option Coin)
  pub open_interest : Option (Option OpenInterest)
  pub open_interest_expiry : Option (Option ℕ)
  pub counter_offers : M
  pub liquidation_unbonding_duration : Option ℕ
  pub last_liquidation_unbonding : Option (Option ℕ)

-- `Item::load`
abbrev pub load {ℓ} : {A : Type ℓ} → Option A → Result A
load none = err (std not_found)
load (some a) = ok a
