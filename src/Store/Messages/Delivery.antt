-- ===== src/Store/Messages/Delivery.antt =====
-- store/src/messages.rs: what becomes of a sent message: acknowledged, expired, lost in a restart of
-- the server, or uncertain.
use dratchet.Base.{
  ℕ, ◌+◌, ◌-◌, ◌^◌, Bool, true, false, not, ◌&&◌, Option, none, some, List, [], ◌∷◌, Bytes,
  bytes_eq, nat_eq, min, leb, filter, length, map, if◌then◌else◌, is_some,
}
use dratchet.Store.Db.{Platform, Db}
use dratchet.Base.Codecs.{Codec}
use dratchet.Store.Records.{Message, expired, server_restarted}
use dratchet.Store.Messages.{is_just, sort_by_time, save_message, list_messages}

-- `u64::saturating_add`
abbrev pub saturating_add_u64 : ℕ → ℕ → ℕ
saturating_add_u64 a b = min (a + b) (2 ^ 64 - 1)

unfoldable pub acknowledge : Message → Message
acknowledge m = record m { delivered = true; uncertain = false; retry_reason = none }

unfoldable pub is_acked_by : Bytes → ℕ → Message → Bool
is_acked_by dh_pub acked_n m =
    m.sender_is_local
    && (not m.delivered && (is_just m.send_n acked_n && is_just m.send_dh_pub dh_pub))

abbrev pub number_within : Option ℕ → ℕ → Bool
number_within none highest_n = false
number_within (some n) highest_n = leb n highest_n

unfoldable pub is_acked_up_to : Bytes → ℕ → Message → Bool
is_acked_up_to dh_pub highest_n m =
    m.sender_is_local
    && (not m.delivered && (is_just m.send_dh_pub dh_pub && number_within m.send_n highest_n))

-- Sent, and nothing has been heard of it since.
abbrev pub is_unconfirmed : Message → Bool
is_unconfirmed m =
    m.sender_is_local && (not m.delivered && (not (is_some m.retry_reason) && is_some m.send_n))

abbrev pub sent_at : Message → ℕ
sent_at m = elim m.last_sent_at [ none ↦ m.timestamp | some at ↦ at ]

unfoldable pub is_expired : ℕ → ℕ → ℕ → Message → Bool
is_expired ttl_secs grace_secs now m =
    is_unconfirmed m
    && leb (saturating_add_u64 (saturating_add_u64 (sent_at m) ttl_secs) grace_secs) now

unfoldable pub is_uncertain : Message → Bool
is_uncertain m =
    m.sender_is_local && (not m.delivered && (not m.uncertain && not (is_some m.retry_reason)))

unfoldable pub find_message : (Message → Bool) → List Message → Option Message
find_message test [] = none
find_message test (m ∷ ms) = if test m then some m else find_message test ms

module _ (v : Platform) (codec : Codec Message) where
  -- `for mut m in messages { update(m); self.save_message(m) }`
  unfoldable pub save_each : Bytes → List Message → Db → Db
  save_each conversation_id [] db = db
  save_each conversation_id (m ∷ ms) db =
      save_each conversation_id ms (save_message v codec conversation_id m db)

  -- The messages of the conversation that the test selects, updated and saved.
  unfoldable pub update_where :
      (Message → Bool) → (Message → Message) → Bytes → Db → List Message × Db
  update_where test update conversation_id db =
      let (messages, after) = list_messages v codec conversation_id db in
      let updated = map update (filter test messages) in
      (updated, save_each conversation_id updated after)

  unfoldable pub mark_message_delivered : Bytes → Bytes → ℕ → Db → Option Message × Db
  mark_message_delivered conversation_id dh_pub acked_n db =
      let (messages, after) = list_messages v codec conversation_id db in
      elim (find_message (is_acked_by dh_pub acked_n) messages) [
        | none ↦ (none, after)
        | some matched ↦ (
          some (acknowledge matched),
          save_message v codec conversation_id (acknowledge matched) after,
        )
      ]

  unfoldable pub mark_messages_delivered_up_to : Bytes → Bytes → ℕ → Db → List Message × Db
  mark_messages_delivered_up_to conversation_id dh_pub highest_n db =
      let (marked, after) =
        update_where (is_acked_up_to dh_pub highest_n) acknowledge conversation_id db in
      (sort_by_time marked, after)

  unfoldable pub mark_expired_sends : Bytes → ℕ → ℕ → ℕ → Db → ℕ × Db
  mark_expired_sends conversation_id ttl_secs grace_secs now db =
      let (marked, after) =
        update_where (is_expired ttl_secs grace_secs now)
          (λ m. record m { retry_reason = some expired }) conversation_id db in
      (length marked, after)

  unfoldable pub mark_unconfirmed_lost_in_restart : Bytes → Db → ℕ × Db
  mark_unconfirmed_lost_in_restart conversation_id db =
      let (marked, after) =
        update_where is_unconfirmed (λ m. record m { retry_reason = some server_restarted })
          conversation_id db in
      (length marked, after)

  unfoldable pub mark_undelivered_uncertain : Bytes → Db → ℕ × Db
  mark_undelivered_uncertain conversation_id db =
      let (marked, after) =
        update_where is_uncertain (λ m. record m { uncertain = true }) conversation_id db in
      (length marked, after)
