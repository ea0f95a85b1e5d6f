-- ===== src/Core/Envelope.antt =====
-- core/src/envelope.rs: the ratchet message envelope and its fixed wire layout.
pub mod Codec
use dratchet.Base.{
  ℕ, zero, suc, ◌+◌, ◌%◌, Bool, not, List, [], ◌∷◌, ◌++◌, Bytes, ltb, eqb, length, slice, drop, ok,
  ◌>>=◌, ◌>>◌, reject_if, ok_or,
}
use dratchet.Core.Errors.{CoreResult, malformed_envelope}
use dratchet.Core.Words.{u32_mod, to_be_bytes, from_be_bytes, checked_add}

abbrev pub header_len : ℕ
header_len = 61

abbrev pub current_version : ℕ
current_version = 1

pub record Envelope : Type 0 where
  pub version : ℕ
  pub conversation_id : Bytes
  pub dh_pub : Bytes
  pub pn : ℕ
  pub n : ℕ
  pub ciphertext : Bytes

-- The arrays of the source have fixed lengths, so the copies into the header are an append.
unfoldable pub header_bytes : Envelope → Bytes
header_bytes e =
    e.version
    ∷ (e.conversation_id
        ++ (e.dh_pub
            ++ (to_be_bytes e.pn
                ++ (to_be_bytes e.n ++ to_be_bytes (length e.ciphertext % u32_mod)))))

unfoldable pub encode : Envelope → Bytes
unfolding header_bytes
encode e = header_bytes e ++ e.ciphertext

-- `bytes[i]` for an index in range
abbrev byte_at : ℕ → Bytes → ℕ
byte_at i [] = 0
byte_at zero (b ∷ bs) = b
byte_at (suc i) (b ∷ bs) = byte_at i bs

unfoldable pub decode : Bytes → CoreResult Envelope
decode bytes = do
  reject_if (ltb (length bytes) header_len) (malformed_envelope "shorter than the fixed header")
  let version = byte_at 0 bytes
  reject_if (not (eqb version current_version)) (malformed_envelope "unsupported version")
  let conversation_id = slice 1 17 bytes
  let dh_pub = slice 17 49 bytes
  let pn = from_be_bytes (slice 49 53 bytes)
  let n = from_be_bytes (slice 53 57 bytes)
  let ciphertext_len = from_be_bytes (slice 57 61 bytes)
  ciphertext_end ←
      ok_or (checked_add header_len ciphertext_len) (malformed_envelope "ciphertext_len overflows")
  reject_if (not (eqb ciphertext_end (length bytes)))
      (malformed_envelope "ciphertext_len doesn't match the remaining bytes")
  ok (record {
    version = version;
    conversation_id = conversation_id;
    dh_pub = dh_pub;
    pn = pn;
    n = n;
    ciphertext = drop header_len bytes;
  })
