-- ===== src/App/Send/Kept.antt =====
-- app/src/lib.rs: a message whose envelope the service does not take.
use dratchet.Base.{
  ℕ, ◌≡◌, refl, true, false, Option, none, some, Bytes, bytes_eq, ok, err, arith, List, [], ◌∷◌,
  ◌++◌, if◌then◌else◌,
}
use dratchet.Base.Codecs.{Decodes}
use dratchet.Core.Envelope.{Envelope, encode}
use dratchet.Core.Ratchet.State.{RatchetState}
use dratchet.Store.Records.{Contact, Message, send_failed}
use dratchet.Store.Db.{content}
use dratchet.Store.Db.Laws.{IsSound, get-put}
use dratchet.Store.Messages.{save_message, load_message, decode_message, message_key}
use dratchet.Store.Sessions.{save_ratchet}
use dratchet.App.Errors.{Error, not_sent, not_acknowledged, connection}
use dratchet.App.Client.{
  Crates, Client, Answer, write_mailbox, MailboxWrite, mailbox_ttl_secs, take_answer, acked, failed,
}
use dratchet.App.Send.{in_flight, send_sealed, settle}

-- A message that was saved is loaded by its id.
load_message-save_message :
    (c : Crates) (conv_id : Bytes) (m : Message) (client : Client)
    → IsSound c.platform
    → Decodes c.messages m
    → (load_message c.platform c.messages conv_id m.id
        (save_message c.platform c.messages conv_id m client.db)).0
      ≡ ok (some m)
unfolding load_message save_message decode_message
load_message-save_message c conv_id m client sound decodes =
    let back =
      get-put c.platform sound content (message_key conv_id m.id) (c.messages.to_cbor m)
        client.db in
    ground (arith, back, decodes)

-- A message that is to be sent again, under the number and the key of its envelope
abbrev pub to_retry : Envelope → Message → Message
to_retry envelope message = record message {
  send_n = some envelope.n;
  send_dh_pub = some envelope.dh_pub;
  delivered = false;
  uncertain = false;
  retry_reason = some send_failed;
}

-- Why a message counts as not taken: the request failed, the service said no, or nothing answers.
abbrev pub refusal : List Answer → Option Error
refusal [] = some (connection "connection already lost")
refusal (acked taken ∷ answers) = if taken then none else some not_acknowledged
refusal (failed cause is_lost ∷ answers) = some cause

take_answer_refused :
    (answers : List Answer) (client : Client) (cause : Error)
    → refusal answers ≡ some cause
    → ((take_answer answers client).0 ≡ err cause) × ((take_answer answers client).1.db ≡ client.db)
unfolding take_answer
take_answer_refused [] client cause h = (ground (arith, h), refl)
take_answer_refused (acked true ∷ answers) client cause h = absurd (ground (arith, h))
take_answer_refused (acked false ∷ answers) client cause h = (ground (arith, h), refl)
take_answer_refused (failed e is_lost ∷ answers) client cause h = (ground (arith, h), refl)

-- When the service does not take the envelope of a message (the request fails, the acknowledgement
-- is negative, or the connection gives no answer), the error names the message and the cause, and
-- the database has the message under its id, marked to be sent again; on a sound platform, where
-- the codec reads back the message that it wrote.
pub send_sealed_kept :
    (c : Crates) (now : ℕ) (contact : Contact) (conv_id : Bytes) (message : Message)
    (envelope : Envelope) (advanced : RatchetState) (client : Client) (cause : Error)
    → IsSound c.platform
    → Decodes c.messages (to_retry envelope message)
    → refusal client.answers ≡ some cause
    → ((send_sealed c now contact conv_id message envelope advanced client).0
        ≡ err (not_sent (to_retry envelope message) cause))
      × ((load_message c.platform c.messages conv_id message.id
            (send_sealed c now contact conv_id message envelope advanced client).1.db).0
          ≡ ok (some (to_retry envelope message)))
unfolding send_sealed settle write_mailbox
send_sealed_kept c now contact conv_id message envelope advanced client cause sound decodes h =
    let saved =
      save_message c.platform c.messages conv_id (in_flight envelope message)
        (save_ratchet c.platform c.sessions conv_id advanced client.db) in
    let write : MailboxWrite = record {
      mailbox_id = contact.mailbox_id;
      envelope = encode envelope;
      ttl = mailbox_ttl_secs;
    } in
    let asked : Client = record client { db = saved; sent = client.sent ++ write ∷ [] } in
    let (failed_so, same_db) = take_answer_refused client.answers asked cause h in
    rw (failed_so, same_db)
      (
        refl,
        load_message-save_message c conv_id (in_flight envelope message)
            (record client { db = save_ratchet c.platform c.sessions conv_id advanced client.db })
            sound decodes,
      )
