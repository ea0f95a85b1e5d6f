-- ===== src/Core/Payload/Contents.antt =====
-- core/src/payload.rs: what the payloads hold. Each is written and read as CBOR by the crate ciborium.
use Prim.Native.String.{String}
use dratchet.Base.{ℕ, Bool, not, Option, Bytes, ok, ok_or, ◌>>=◌, ◌>>◌, reject_if}
use dratchet.Base.Codecs.{Codec}
use dratchet.Core.Errors.{CoreResult, malformed_payload}
use dratchet.Core.Username.{is_acceptable}

abbrev pub payload_delivery_ack : ℕ
payload_delivery_ack = 1

abbrev pub payload_recovery_profile_announce : ℕ
payload_recovery_profile_announce = 2

abbrev pub payload_routing_id_announce : ℕ
payload_routing_id_announce = 3

abbrev pub payload_conversation_wipe_policy_announce : ℕ
payload_conversation_wipe_policy_announce = 4

abbrev pub payload_conversation_wipe_request : ℕ
payload_conversation_wipe_request = 5

abbrev pub payload_first_contact : ℕ
payload_first_contact = 6

abbrev pub payload_profile_announce : ℕ
payload_profile_announce = 7

pub record RoutingIdAnnounce : Type 0 where
  pub routing_id : Bytes

pub record ConversationWipePolicyAnnounce : Type 0 where
  pub ask_before_delete : Bool
  pub include_session : Bool

pub record ConversationWipeRequestContent : Type 0 where
  pub include_session : Bool

pub record FirstContactContent : Type 0 where
  pub pairing_code : Bytes
  pub username : Bytes
  pub discriminator : ℕ

pub record PiggybackAck : Type 0 where
  pub dh_pub : Bytes
  pub highest_n : ℕ

pub record ChatContent : Type 0 where
  pub text : Bytes
  pub piggyback_ack : Option PiggybackAck
  pub message_id : Bytes

pub record DeliveryAck : Type 0 where
  pub conversation_id : Bytes
  pub dh_pub : Bytes
  pub acked_n : ℕ

pub record ProfileAnnounce : Type 0 where
  pub username : Bytes
  pub discriminator : ℕ

-- The shape of each `decode`
abbrev decode_as : {A : Type 0} → Codec A → String → Bytes → CoreResult A
decode_as codec what bytes = ok_or (codec.from_cbor bytes) (malformed_payload what)

unfoldable pub decode_routing_id_announce :
    Codec RoutingIdAnnounce → Bytes → CoreResult RoutingIdAnnounce
decode_routing_id_announce codec = decode_as codec "not a valid RoutingIdAnnounce"

unfoldable pub decode_wipe_policy_announce :
    Codec ConversationWipePolicyAnnounce → Bytes → CoreResult ConversationWipePolicyAnnounce
decode_wipe_policy_announce codec = decode_as codec "not a valid ConversationWipePolicyAnnounce"

unfoldable pub decode_wipe_request :
    Codec ConversationWipeRequestContent → Bytes → CoreResult ConversationWipeRequestContent
decode_wipe_request codec = decode_as codec "not a valid ConversationWipeRequestContent"

unfoldable pub decode_first_contact_content :
    Codec FirstContactContent → Bytes → CoreResult FirstContactContent
decode_first_contact_content codec = decode_as codec "not a valid FirstContactContent"

unfoldable pub decode_chat_content : Codec ChatContent → Bytes → CoreResult ChatContent
decode_chat_content codec = decode_as codec "not a valid ChatContent"

unfoldable pub decode_delivery_ack : Codec DeliveryAck → Bytes → CoreResult DeliveryAck
decode_delivery_ack codec = decode_as codec "not a valid DeliveryAck"

unfoldable pub encode_profile_announce : Codec ProfileAnnounce → ProfileAnnounce → Bytes
encode_profile_announce codec = codec.to_cbor

-- A profile whose username is not acceptable is refused, from whichever client it comes.
unfoldable pub decode_profile_announce : Codec ProfileAnnounce → Bytes → CoreResult ProfileAnnounce
decode_profile_announce codec bytes = do
  announce ← decode_as codec "not a valid ProfileAnnounce" bytes
  reject_if (not (is_acceptable announce.username))
      (malformed_payload "ProfileAnnounce username is too long or uses disallowed characters")
  ok announce
