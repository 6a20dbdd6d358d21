-- ===== src/Transfer.antt =====
-- src/contract/transfer.rs: the owner hands the vault over.
use wasm_vault.Prelude.{String, some, [], ◌∷◌, str_eq}
use wasm_vault.Types.{MessageInfo, Response, respond, attr, text}
use wasm_vault.Errors.{Result, ok, ownership_unchanged, ◌>>=◌, ◌>>◌, fail_if}
use wasm_vault.Host.{Host, try}
use wasm_vault.Storage.{Storage}
use wasm_vault.Helpers.{require_owner}

module _ {M : Type 0} where
  unfoldable pub execute : Host → MessageInfo → String → Storage M → Result (Response × Storage M)
  execute host info new_owner s = do
    current_owner ← require_owner s info
    validated_new_owner ← try (host.addr_validate new_owner)
    fail_if (str_eq validated_new_owner current_owner) ownership_unchanged
    let attrs =
        attr "action" (text "transfer_ownership")
        ∷ attr "previous_owner" (text current_owner)
        ∷ attr "new_owner" (text validated_new_owner)
        ∷ []
    ok (respond [] attrs, record s { owner = some validated_new_owner })
