-- ===== src/OpenInterest/Execute.antt =====
-- src/contract/open_interest/execute.rs: the owner asks for a loan.
pub mod Success
use wasm_vault.Prelude.{some, [], is_some}
use wasm_vault.Types.{OpenInterest, Env, MessageInfo, Response, respond}
use wasm_vault.Errors.{Result, ok, open_interest_already_exists, ◌>>=◌, ◌>>◌, fail_if}
use wasm_vault.Host.{Host}
use wasm_vault.Storage.{OfferMap, Storage, load}
use wasm_vault.Helpers.{require_owner}
use wasm_vault.OpenInterest.Terms.{validate_open_interest, open_interest_attributes}

module _ {M : Type 0} ⦃offer_map : OfferMap M⦄ where
  unfoldable pub execute :
      Host → Env → MessageInfo → OpenInterest → Storage M → Result (Response × Storage M)
  execute host env info open_interest s = do
    require_owner s info
    active ← load s.open_interest
    fail_if (is_some active) open_interest_already_exists
    validate_open_interest host env open_interest
    let s' = record s {
      open_interest = some (some open_interest);
      counter_offers = offer_map.clear s.counter_offers;
    }
    ok (respond [] (open_interest_attributes "open_interest" open_interest), s')
