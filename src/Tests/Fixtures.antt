-- ===== src/Tests/Fixtures.antt =====
-- A concrete chain, a concrete map of counter offers and a few vaults, for the tests.
use wasm_vault.Prelude.{ℕ, ◌+◌, ◌*◌, refl, String, none, some, List, [], ◌∷◌, arith}
use wasm_vault.BTreeMap
use wasm_vault.BTreeMap.{BTreeMap}
use wasm_vault.Types.{Addr, Coin, OpenInterest, Env, MessageInfo}
use wasm_vault.Errors.{ok}
use wasm_vault.Host.{Host, Delegation, answer}
use wasm_vault.Storage.{OfferMap, Storage}
use wasm_vault.Invariant.Defs.{IsConsistent}

-- The map as its entries.
instance abbrev pub listed : OfferMap (BTreeMap OpenInterest)
listed = record {
  may_load = λ m k. BTreeMap.get k m;
  save = λ m k v. BTreeMap.insert k v m;
  remove = λ m k. BTreeMap.remove k m;
  clear = λ m. [];
  range = λ m. m;
  may_load_lem = λ m k. refl;
  range-save = λ m k v. refl;
  range-remove = λ m k. refl;
  range-clear = λ m. refl;
}

abbrev pub Vault : Type 0
Vault = Storage (BTreeMap OpenInterest)

abbrev pub coin : ℕ → String → Coin
coin amount denom = record { amount = amount; denom = denom }

-- A chain with the bonded denom "ucosm", balances of `funds` in every denom and stakes of 60 and 50.
abbrev pub chain : ℕ → Host
chain funds = record {
  addr_validate = λ a. answer a;
  query_bonded_denom = answer "ucosm";
  query_balance = λ a denom. answer (coin funds denom);
  query_all_delegations = λ a. answer (stake "val-a" 60 ∷ stake "val-b" 50 ∷ []);
  query_delegation = λ a validator. answer (some (stake validator 60));
  query_validator = λ validator. answer (some validator);
  query_delegation_total_rewards = λ a. answer [];
  to_uint_floor = λ n. n;
  plus_seconds = λ t n. ok (t + n * 1_000_000_000);
  to_json_binary = λ response. answer response.message;
}
  where
    stake : String → ℕ → Delegation
    stake validator amount = record { validator = validator; amount = coin amount "ucosm" }

abbrev pub at_time : ℕ → Env
at_time seconds = record { time = seconds * 1_000_000_000; contract_address = "vault" }

abbrev pub from : Addr → List Coin → MessageInfo
from sender funds = record { sender = sender; funds = funds }

-- A request of `liquidity` uusd on 200 ucosm for a day.
abbrev pub asking : ℕ → OpenInterest
asking liquidity = record {
  liquidity_coin = coin liquidity "uusd";
  interest_coin = coin 50 "ujuno";
  expiry_duration = 86_400;
  collateral = coin 200 "ucosm";
}

-- Before instantiation.
abbrev pub blank : Vault
blank = record {
  contract_version = none;
  owner = none;
  lender = none;
  outstanding_debt = none;
  open_interest = none;
  open_interest_expiry = none;
  counter_offers = [];
  liquidation_unbonding_duration = none;
  last_liquidation_unbonding = none;
}

abbrev pub idle : Vault
idle = record {
  contract_version = some ("crates.io:wasm_vault", "0.1.0");
  owner = some "owner";
  lender = some none;
  outstanding_debt = some none;
  open_interest = some none;
  open_interest_expiry = some none;
  counter_offers = [];
  liquidation_unbonding_duration = some 1000;
  last_liquidation_unbonding = some none;
}

-- A request of 1000 uusd with offers of 900 and 800.
abbrev pub requested : Vault
requested = record idle {
  open_interest = some (some (asking 1000));
  counter_offers = ("ann", asking 900) ∷ ("bob", asking 800) ∷ [];
  outstanding_debt = some (some (coin 1700 "uusd"));
}

-- A loan of 1000 uusd from "leo" that has expired at the time 86_500.
abbrev pub lent : Vault
lent = record idle {
  open_interest = some (some (asking 1000));
  lender = some (some "leo");
  open_interest_expiry = some (some 86_500_000_000_000);
}

pub idle-IsConsistent : IsConsistent idle
idle-IsConsistent = ground arith

pub requested-IsConsistent : IsConsistent requested
requested-IsConsistent = ground arith

pub lent-IsConsistent : IsConsistent lent
lent-IsConsistent = ground arith
