-- ===== src/App/Client.antt =====
-- app/src/lib.rs: the state of a client, which is its database and its connection. What the service
-- answers is given ahead, one answer for each request; the receive lock makes a call one step.
use dratchet.Base.{
  ℕ, ◌+◌, ◌*◌, Bool, true, false, List, [], ◌∷◌, ◌++◌, Bytes, bytes_eq, codes, ok, err, ok_or, ltb,
  if◌then◌else◌, ◌/◌, ◌%◌,
}
use dratchet.Base.Actions.{Method, ◌>>=◌, lift}
use dratchet.Base.Codecs.{Codec}
use dratchet.Core.Conversation.{conversation_id}
use dratchet.Core.Identity.{Signatures, fingerprint_of_public_key}
use dratchet.Core.Payload.Contents.{
  RoutingIdAnnounce, ConversationWipePolicyAnnounce, ConversationWipeRequestContent,
  FirstContactContent, ChatContent, DeliveryAck, ProfileAnnounce,
}
use dratchet.Core.Ratchet.State.{RatchetState}
use dratchet.Core.Ratchet.Export.{ExportedRatchetState}
use dratchet.Store.Errors.{StoreResult}
use dratchet.Store.Records.{Contact, Message}
use dratchet.Store.Db as Database
use dratchet.Store.Db.{Platform, Db}
use dratchet.Store.Sessions.{load_ratchet}
use dratchet.App.Errors.{Error, AppResult, store, no_session, not_acknowledged, connection}

-- The crates that a client calls
pub record Crates : Type 0 where
  pub platform : Platform
  pub signatures : Signatures
  pub contacts : Codec Contact
  pub messages : Codec Message
  pub sessions : Codec ExportedRatchetState
  pub chats : Codec ChatContent
  pub acks : Codec DeliveryAck
  pub profiles : Codec ProfileAnnounce
  pub routes : Codec RoutingIdAnnounce
  pub wipe_policies : Codec ConversationWipePolicyAnnounce
  pub wipe_requests : Codec ConversationWipeRequestContent
  pub first_contacts : Codec FirstContactContent

abbrev pub mailbox_ttl_secs : ℕ
mailbox_ttl_secs = 14 * 24 * 60 * 60

-- `MailboxWrite`
pub record MailboxWrite : Type 0 where
  pub mailbox_id : Bytes
  pub envelope : Bytes
  pub ttl : ℕ

-- What comes of a request: the `ok` of the answer, or a failure, after which the connection may be lost.
pub data Answer : Type 0 where
  acked : Bool → Answer
  failed : (e : Error) (is_lost : Bool) → Answer

pub record Client : Type 0 where
  pub db : Db
  pub is_lost : Bool
  pub sent : List MailboxWrite
  pub answers : List Answer

abbrev pub Action : Type 0 → Type 0
Action A = Method Error Client A

-- `?` on what the store gives
abbrev pub of_store {ℓ} : {A : Type ℓ} → StoreResult A → AppResult A
of_store (ok a) = ok a
of_store (err e) = err (store e)

module _ {A : Type 0} where
  -- A call of the database that may fail
  abbrev pub on_db : Database.Action A → Action A
  on_db f client = let (r, after) = f client.db in (of_store r, record client { db = after })

  -- A call of the database that gives a value and cannot fail
  abbrev pub from_db : (Db → A × Db) → Action A
  from_db f client = let (a, after) = f client.db in (ok a, record client { db = after })

abbrev pub update_db : (Db → Db) → Action (Unit {0})
update_db f client = (ok tt, record client { db = f client.db })

-- The answer to a request, where the connection still gives one.
unfoldable pub take_answer : List Answer → Client → AppResult (Unit {0}) × Client
take_answer [] client =
    (err (connection "connection already lost"), record client { is_lost = true; answers = [] })
take_answer (acked true ∷ answers) client = (ok tt, record client { answers = answers })
take_answer (acked false ∷ answers) client =
    (err not_acknowledged, record client { answers = answers })
take_answer (failed e is_lost ∷ answers) client =
    (err e, record client { is_lost = is_lost; answers = answers })

-- `conn.send(FrameTag::MailboxWrite, ..)`, `conn.recv()` and the check of the acknowledgement
unfoldable pub write_mailbox : Bytes → Bytes → Action (Unit {0})
write_mailbox mailbox_id envelope client =
    let write : MailboxWrite = record {
      mailbox_id = mailbox_id;
      envelope = envelope;
      ttl = mailbox_ttl_secs;
    } in
    take_answer client.answers (record client { sent = client.sent ++ write ∷ [] })

unfoldable pub ensure_connection_usable : Action (Unit {0})
ensure_connection_usable client =
    (if client.is_lost then err (connection "connection already lost") else ok tt, client)

-- `format!("{:04}", n)` for a number of at most five digits
abbrev pub four_digits : ℕ → Bytes
four_digits n =
    let low =
      (b'0' + n / 1_000 % 10)
      ∷ (b'0' + n / 100 % 10)
      ∷ (b'0' + n / 10 % 10)
      ∷ (b'0' + n % 10)
      ∷ [] in
    if ltb n 10_000 then low else (b'0' + n / 10_000) ∷ low

-- `format!("{u}#{:04}", d)`
unfoldable pub handle_of : Bytes → ℕ → Bytes
handle_of username discriminator = username ++ (codes "#" ++ four_digits discriminator)

module _ (c : Crates) where
  -- `account` is the account's secret identity key.
  unfoldable pub conversation_id_for : Bytes → Contact → Bytes
  conversation_id_for account contact =
      conversation_id c.signatures
        (fingerprint_of_public_key c.signatures (c.signatures.verifying_key account))
        contact.fingerprint

  -- `db.load_ratchet(conv_id)?.ok_or(Error::NoSession)?`
  abbrev pub session_of : Bytes → Action RatchetState
  session_of conv_id = do
    found ← on_db (load_ratchet c.platform c.sessions conv_id)
    lift (ok_or found no_session)
