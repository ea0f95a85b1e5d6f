-- ===== src/Core/Payload.antt =====
-- core/src/payload.rs: the tagged, length-prefixed and padded plaintext of a ratchet message.
pub mod Padding
pub mod Contents
use dratchet.Base.{
  ℕ, ◌+◌, ◌-◌, ◌*◌, ◌/◌, ◌%◌, [], ◌∷◌, ◌++◌, Bytes, ltb, leb, if◌then◌else◌, length, slice, take,
  replicate, ok, err, ◌>>=◌, ◌>>◌, reject_if, ok_or,
}
use dratchet.Core.Errors.{CoreResult, malformed_payload}
use dratchet.Core.Words.{u32_mod, to_le_bytes, from_le_bytes, checked_add}

abbrev pub payload_chat : ℕ
payload_chat = 0

abbrev pub pad_bucket : ℕ
pad_bucket = 160

abbrev pub max_padded_len : ℕ
max_padded_len = 16 * 1024

-- The length that `tag_and_pad` pads a tagged payload of length `tagged_len` to.
-- `usize::div_ceil` is the division rounded up; `saturating_sub` is the subtraction of ℕ.
unfoldable pub padded_len_of : ℕ → ℕ
padded_len_of tagged_len =
    if leb (max_padded_len - pad_bucket) tagged_len
    then max_padded_len
    else (tagged_len + pad_bucket - 1) / pad_bucket * pad_bucket

-- `Vec::resize(n, 0)`
unfoldable pub resize : ℕ → Bytes → Bytes
resize n out = take n out ++ replicate (n - length out) 0

unfoldable pub tag_and_pad : ℕ → Bytes → CoreResult Bytes
tag_and_pad payload_type content = do
  let tagged_len = 1 + 4 + length content
  reject_if (ltb max_padded_len tagged_len) (malformed_payload "content too large to pad")
  ok (
      resize (padded_len_of tagged_len)
        (payload_type ∷ (to_le_bytes (length content % u32_mod) ++ content)))

unfoldable pub untag_and_unpad : Bytes → CoreResult (ℕ × Bytes)
untag_and_unpad [] = err (malformed_payload "shorter than the tag+length header")
untag_and_unpad (payload_type ∷ rest) = do
  reject_if (ltb (length (payload_type ∷ rest)) 5)
      (malformed_payload "shorter than the tag+length header")
  let content_len = from_le_bytes (slice 0 4 rest)
  content_end ← ok_or (checked_add 5 content_len) (malformed_payload "length field overflows")
  reject_if (ltb (length (payload_type ∷ rest)) content_end)
      (malformed_payload "length field exceeds padded plaintext")
  ok (payload_type, slice 5 content_end (payload_type ∷ rest))
