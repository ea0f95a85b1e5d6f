-- ===== src/App/Errors.antt =====
-- app/src/error.rs: the errors of the client application, by their variants.
use Prim.Native.String.{String}
use dratchet.Base.{ℕ, Result}
use dratchet.Core.Errors as CoreErrors
use dratchet.Store.Errors as StoreErrors
use dratchet.Store.Records.{Message}

pub data Error : Type 0 where
  store : StoreErrors.Error → Error
  core : CoreErrors.Error → Error
  connection protocol : String → Error
  server_refused : (code : ℕ) → String → Error
  no_session not_acknowledged username_taken no_such_account signed_prekey_expired : Error
  no_pending_wipe_request io nothing_to_retry : Error
  not_sent : Message → Error → Error

abbrev pub AppResult {ℓ} : Type ℓ → Type ℓ
AppResult A = Result Error A
