-- ===== src/OpenInterest/Execute/Success.antt =====
-- What a request needs to be opened, src/contract/open_interest/execute.rs.
use wasm_vault.Prelude.{ℕ, ◌≡◌, ◌↔◌, some, none, [], is_some, arith, eq_refl}
use wasm_vault.Types.{Coin, OpenInterest, Env, MessageInfo, Response, respond}
use wasm_vault.Errors.{ok, bind-ok, fail_if, open_interest_already_exists}
use wasm_vault.Host.{Host, answer}
use wasm_vault.Storage.{OfferMap, Storage, load}
use wasm_vault.Helpers.{require_owner, minimum_collateral_lock_for_denom}
use wasm_vault.Helpers.Owner.{require_owner-eq_ok}
use wasm_vault.OpenInterest.Terms.{validate_open_interest, open_interest_attributes}
use wasm_vault.OpenInterest.Terms.Validity.{IsValid, validate_open_interest_iff}
use wasm_vault.OpenInterest.Execute.{execute}

-- Who the sender, what the state and the terms must be.
pub record IsOpenable {M : Type 0} (info : MessageInfo) (terms : OpenInterest) (s : Storage M)
    (available lock : ℕ) : Type 0 where
  pub caller : s.owner ≡ some info.sender
  pub idle : s.open_interest ≡ some none
  pub valid : IsValid terms available lock

module _ {M : Type 0} ⦃offer_map : OfferMap M⦄ where
  -- The answer to an opening, and the state after it.
  abbrev pub opened : OpenInterest → Storage M → Response × Storage M
  opened terms s = (
    respond [] (open_interest_attributes "open_interest" terms),
    record s {
      open_interest = some (some terms);
      counter_offers = offer_map.clear s.counter_offers;
    },
  )

module _ {M : Type 0} ⦃offer_map : OfferMap M⦄ (host : Host) (env : Env) (info : MessageInfo)
    (terms : OpenInterest) (s : Storage M) (balance : Coin) (lock : ℕ) where
  execute-IsOpenable :
      host.query_balance env.contract_address terms.collateral.denom ≡ answer balance
      → minimum_collateral_lock_for_denom host env terms.collateral.denom (some terms) ≡ ok lock
      → execute host env info terms s ≡ ok (opened terms s)
      → IsOpenable info terms s balance.amount lock
  unfolding execute
  execute-IsOpenable b l h = bind-ok (require_owner s info) _ h λ owner passed h1.
      bind-ok (load s.open_interest) _ h1 λ stored loaded h2.
        bind-ok (fail_if (is_some stored) open_interest_already_exists) _ h2 λ _ free h3.
          bind-ok (validate_open_interest host env terms) _ h3 λ _ accepted h4. record {
            caller = (require_owner-eq_ok s info owner passed).0;
            idle = ground (arith, loaded, free);
            valid = (validate_open_interest_iff host env terms balance lock b l).0 accepted;
          }

  execute_of_openable :
      host.query_balance env.contract_address terms.collateral.denom ≡ answer balance
      → minimum_collateral_lock_for_denom host env terms.collateral.denom (some terms) ≡ ok lock
      → IsOpenable info terms s balance.amount lock
      → execute host env info terms s ≡ ok (opened terms s)
  unfolding execute require_owner
  execute_of_openable b l o = ground (
    arith,
    o.caller,
    o.idle,
    (validate_open_interest_iff host env terms balance lock b l).1 o.valid,
    eq_refl info.sender,
  )

  -- Where the chain answers with a balance and a lock in the denom of the collateral, a request is
  -- opened, storing the terms and dropping all offers, exactly when the sender is the owner, there is
  -- no request, the three coins have amounts and names, the duration is not zero, the liquidity and
  -- the interest, added up where they have one denom, fit 128 bits, and the balance reaches the lock.
  pub execute_iff :
      host.query_balance env.contract_address terms.collateral.denom ≡ answer balance
      → minimum_collateral_lock_for_denom host env terms.collateral.denom (some terms) ≡ ok lock
      → (execute host env info terms s ≡ ok (opened terms s))
        ↔ IsOpenable info terms s balance.amount lock
  execute_iff b l = (execute-IsOpenable b l, execute_of_openable b l)
