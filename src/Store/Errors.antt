-- ===== src/Store/Errors.antt =====
-- store/src/error.rs: the errors of the local store. Those of the database engine are not modelled.
use Prim.Native.String.{String}
use dratchet.Base.{Result}
use dratchet.Core.Errors

pub data Error : Type 0 where
  wrong_passphrase_or_corrupted decryption_failed not_verified passphrase_hash : Error
  malformed_record : String → Error
  core : Errors.Error → Error

abbrev pub StoreResult {ℓ} : Type ℓ → Type ℓ
StoreResult A = Result Error A
