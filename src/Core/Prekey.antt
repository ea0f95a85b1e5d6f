-- ===== src/Core/Prekey.antt =====
-- core/src/prekey.rs: the prekeys with their secrets. The published entries and the bundle are in
-- Identity. Each `generate` is given the fresh secret that the random source draws.
use dratchet.Base.{ℕ, Bytes}
use dratchet.Core.Identity.{Signatures, SignedPrekeyPublic, OneTimePrekeyPublic, sign_prekey}
use dratchet.Core.Ratchet.Keys.{Primitives}

pub record SignedPrekey : Type 0 where
  pub id : ℕ
  pub secret : Bytes
  pub key : Bytes
  pub signature : Bytes

pub record OneTimePrekey : Type 0 where
  pub id : ℕ
  pub secret : Bytes
  pub key : Bytes

unfoldable pub new_signed_prekey : Primitives → Signatures → Bytes → ℕ → Bytes → SignedPrekey
new_signed_prekey p g secret id identity = record {
  id = id;
  secret = secret;
  key = p.public_key secret;
  signature = sign_prekey g identity id (p.public_key secret);
}

unfoldable pub signed_prekey_entry : SignedPrekey → SignedPrekeyPublic
signed_prekey_entry k = record { id = k.id; key = k.key; signature = k.signature }

unfoldable pub new_one_time_prekey : Primitives → Bytes → ℕ → OneTimePrekey
new_one_time_prekey p secret id = record { id = id; secret = secret; key = p.public_key secret }

unfoldable pub one_time_prekey_entry : OneTimePrekey → OneTimePrekeyPublic
one_time_prekey_entry k = record { id = k.id; key = k.key }
