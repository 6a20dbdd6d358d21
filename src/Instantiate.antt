-- ===== src/Instantiate.antt =====
-- src/contract/instantiate.rs: the first state of a vault. `set_contract_version` is cw2's: it stores
-- the name and the version of Cargo.toml.
use wasm_vault.Prelude.{ℕ, String, Option, none, some, [], ◌∷◌, ltb}
use wasm_vault.Types.{
  Addr, InstantiateMsg, Env, MessageInfo, Response, respond, attr, text,
  default_liquidation_unbonding_seconds, max_liquidation_unbonding_seconds,
}
use wasm_vault.Errors.{Result, ok, liquidation_unbonding_duration_too_long, ◌>>=◌, ◌>>◌, fail_if}
use wasm_vault.Host.{Host, try}
use wasm_vault.Storage.{Storage}
use wasm_vault.OpenInterest.Lending.{clear_active_lender}

abbrev pub owner_or_sender : Host → Option String → Addr → Result Addr
owner_or_sender host none sender = ok sender
owner_or_sender host (some owner) sender = try (host.addr_validate owner)

abbrev pub checked_duration : Option ℕ → Result ℕ
checked_duration none = ok default_liquidation_unbonding_seconds
checked_duration (some duration) = do
  fail_if (ltb max_liquidation_unbonding_seconds duration)
      (liquidation_unbonding_duration_too_long max_liquidation_unbonding_seconds)
  ok duration

module _ {M : Type 0} where
  unfoldable pub instantiate :
      Host → Env → MessageInfo → InstantiateMsg → Storage M → Result (Response × Storage M)
  unfolding clear_active_lender
  instantiate host env info msg s = do
    owner ← owner_or_sender host msg.owner info.sender
    let reset = clear_active_lender (record s {
      contract_version = some ("crates.io:wasm_vault", "0.1.0");
      owner = some owner;
      outstanding_debt = some none;
      open_interest = some none;
    })
    duration ← checked_duration msg.liquidation_unbonding_duration
    let s' = record reset {
      liquidation_unbonding_duration = some duration;
      last_liquidation_unbonding = some none;
    }
    ok (respond [] (attr "method" (text "instantiate") ∷ attr "owner" (text owner) ∷ []), s')
