-- ===== src/Helpers/Owner.antt =====
-- The check of the owner, src/helpers.rs.
use wasm_vault.Prelude.{◌≡◌, some, arith, eq_iff}
use wasm_vault.Types.{Addr, MessageInfo}
use wasm_vault.Errors.{Result, ok, bind-ok, ◌>>=◌}
use wasm_vault.Storage.{Storage, load}
use wasm_vault.Helpers.{require_owner}

module _ {M : Type 0} (s : Storage M) (info : MessageInfo) where
  pub require_owner-eq_ok :
      (caller : Addr)
      → require_owner s info ≡ ok caller
      → (s.owner ≡ some info.sender) × (caller ≡ info.sender)
  unfolding require_owner
  require_owner-eq_ok caller h =
      bind-ok (load s.owner) _ h λ owner is_owner h1. ground (arith, eq_iff info.sender owner)

  -- A block that begins with the check.
  pub require_owner-first {ℓ} :
      {B : Type ℓ} (f : Addr → Result B) {b : B}
      → (require_owner s info >>= f) ≡ ok b
      → s.owner ≡ some info.sender
  require_owner-first f h =
      bind-ok (require_owner s info) f h λ caller passed h1. (require_owner-eq_ok caller passed).0
