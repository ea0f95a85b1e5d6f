-- ===== src/Base/Codecs.antt =====
-- The serialisation of a type to bytes, by a crate.
use mathlib.Core.Path.{◌≡◌}
use mathlib.Core.Option.{Option, some}
use dratchet.Base.ByteStrings.{Bytes}

-- The CBOR of a type that derives `Serialize` and `Deserialize`, by the crate ciborium.
pub record Codec (A : Type 0) : Type 0 where
  pub to_cbor : A → Bytes
  pub from_cbor : Bytes → Option A

-- What the crate documents: the value that was written is read back.
abbrev pub Decodes : {A : Type 0} → Codec A → A → Type 0
Decodes codec a = codec.from_cbor (codec.to_cbor a) ≡ some a
