-- ===== src/Core/Conversation.antt =====
-- core/src/lib.rs: the id of a conversation.
use dratchet.Base.{◌++◌, Bytes, if◌then◌else◌, take}
use dratchet.Base.Names.{bytes_le}
use dratchet.Core.Identity.{Signatures}

unfoldable pub conversation_id : Signatures → Bytes → Bytes → Bytes
conversation_id g fingerprint_a fingerprint_b = take 16 (
    g.sha256 (
      if bytes_le fingerprint_a fingerprint_b
      then fingerprint_a ++ fingerprint_b
      else fingerprint_b ++ fingerprint_a))
