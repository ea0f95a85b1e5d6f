-- ===== src/Store/Peers.antt =====
-- What a peer announces: its routing id (store/src/routing.rs), its handle (store/src/profile.rs) and
-- its wipe policy (store/src/wipe_policy.rs).
pub mod Symmetry
pub mod Wipe
use Prim.Native.String.{String}
use dratchet.Base.{
  ℕ, Bool, true, false, not, ◌&&◌, ◌||◌, Option, none, some, List, [], ◌∷◌, ◌++◌, Bytes, bytes_eq,
  nat_eq, codes, any, is_some, if◌then◌else◌, ok_or, ok, err, ◌==◌, filter, map, length, leb, ltb,
  eqb,
}
use dratchet.Base.Names.{hex}
use dratchet.Base.Actions.{Method, ◌>>=◌, ◌>>◌, pure, lift, gets, state, modify}
use dratchet.Core.Username.{is_acceptable}
use dratchet.Core.Identity.{Signatures}
use dratchet.Core.Conversation.{conversation_id}
use dratchet.Store.Errors.{Error, StoreResult, malformed_record}
use dratchet.Store.Db.{
  Platform, Db, Action, identity, content, get_encrypted, put_encrypted, keys_with_prefix,
  delete_many,
}
use dratchet.Base.Codecs.{Codec}
use dratchet.Store.Records.{Contact, Message, OwnProfile}
use dratchet.Store.Contacts.{save_contact, load_contact, list_contacts}
use dratchet.Store.Messages.{is_just, message_key, message_key_prefix, list_messages}

unfoldable pub compute_mailbox_id : Signatures → Bytes → Bytes → Bytes
compute_mailbox_id = conversation_id

abbrev pub or_false : Option Bool → Bool
or_false none = false
or_false (some b) = b

unfoldable pub effective_wipe_ask_before_delete : Contact → Bool
effective_wipe_ask_before_delete c =
    c.wipe_ask_before_delete && or_false c.peer_wipe_ask_before_delete

unfoldable pub effective_wipe_include_session : Contact → Bool
effective_wipe_include_session c = c.wipe_include_session || or_false c.peer_wipe_include_session

unfoldable pub current_wipe_boundary : ℕ → Db → ℕ × ℕ
current_wipe_boundary now db = (now, db.message_sequence)

abbrev pub own_profile_key : Bytes
own_profile_key = codes "own_profile"

module _ (v : Platform) (codec : Codec OwnProfile) where
  unfoldable pub save_own_profile : OwnProfile → Db → Db
  save_own_profile profile = put_encrypted v identity own_profile_key (codec.to_cbor profile)

  unfoldable pub load_own_profile : Action (Option OwnProfile)
  load_own_profile = do
    found ← get_encrypted v identity own_profile_key
    elim found [
      | none ↦ pure none
      | some bytes ↦ (do
        profile ← lift (
            ok_or (codec.from_cbor bytes)
              (malformed_record "stored own profile is not valid CBOR for this shape"))
        pure (some profile))
    ]

unfoldable pub with_routing_id : Signatures → Bytes → Contact → Contact
with_routing_id g peer_routing_id contact = record contact {
  mailbox_id = compute_mailbox_id g contact.local_routing_id peer_routing_id;
  peer_routing_id = some peer_routing_id;
}

-- Does another contact have this handle?
unfoldable pub is_claimed : Bytes → Bytes → ℕ → List Contact → Bool
is_claimed fingerprint username discriminator = any (λ c.
    not (c.fingerprint == fingerprint)
    && (is_just c.username username && is_just c.discriminator discriminator))

abbrev pub is_changed : Bytes → ℕ → Contact → Bool
is_changed username discriminator contact =
    not (is_just contact.username username) || not (is_just contact.discriminator discriminator)

abbrev pub with_handle : Bytes → ℕ → Contact → Contact
with_handle username discriminator contact = record contact {
  username = some username;
  discriminator = some discriminator;
}

-- `(m.timestamp, m.sequence) >= boundary`
abbrev pub is_since : ℕ × ℕ → Message → Bool
is_since boundary m =
    ltb boundary.0 m.timestamp || (eqb boundary.0 m.timestamp && leb boundary.1 m.sequence)

unfoldable pub ratchet_key : Bytes → Bytes
ratchet_key conversation_id = codes "ratchet:" ++ hex conversation_id

module _ (v : Platform) (contact_codec : Codec Contact) where
  -- The contact, which has to be there.
  abbrev pub known_contact : String → Bytes → Action Contact
  known_contact reason fingerprint = do
    found ← load_contact v contact_codec fingerprint
    lift (ok_or found (malformed_record reason))

  unfoldable pub record_peer_routing_id : Signatures → Bytes → Bytes → Action Contact
  record_peer_routing_id g fingerprint peer_routing_id = do
    contact ← known_contact "record_peer_routing_id: no such contact" fingerprint
    (if is_just contact.peer_routing_id peer_routing_id
        then pure contact
        else modify (save_contact v contact_codec (with_routing_id g peer_routing_id contact))
          >> pure (with_routing_id g peer_routing_id contact))

  abbrev confirm : Contact → Db → Db
  confirm contact db =
      if contact.routing_confirmed
      then db
      else save_contact v contact_codec (record contact { routing_confirmed = true }) db

  unfoldable pub mark_routing_confirmed : Bytes → Action (Unit {0})
  mark_routing_confirmed fingerprint = do
    found ← load_contact v contact_codec fingerprint
    modify (elim found [ none ↦ (λ db. db) | some contact ↦ confirm contact ])

  -- The contact's handle after the announcement, and whether the user is told.
  abbrev pub adopt : Bytes → ℕ → Contact → Db → (Contact × Bool) × Db
  adopt username discriminator contact db =
      if is_changed username discriminator contact
      then (
        (with_handle username discriminator contact, is_some contact.username),
        save_contact v contact_codec (with_handle username discriminator contact) db,
      )
      else ((contact, false), db)

  -- The handle of another known contact is not given to this one.
  unfoldable pub adopt_unclaimed : Bytes → ℕ → Contact → Action (Contact × Bool)
  adopt_unclaimed username discriminator contact = do
    others ← state (list_contacts v contact_codec)
    (if is_claimed contact.fingerprint username discriminator others
        then pure (contact, false)
        else state (adopt username discriminator contact))

  unfoldable pub record_peer_profile : Bytes → Bytes → ℕ → Action (Contact × Bool)
  record_peer_profile fingerprint username discriminator = do
    contact ← known_contact "record_peer_profile: no such contact" fingerprint
    (if not (is_acceptable username)
        then pure (contact, false)
        else adopt_unclaimed username discriminator contact)

  unfoldable pub record_peer_wipe_policy : ℕ → Bytes → Bool → Bool → Action Contact
  record_peer_wipe_policy now fingerprint ask_before_delete include_session = do
    contact ← known_contact "record_peer_wipe_policy: no such contact" fingerprint
    boundary ← gets (current_wipe_boundary now)
    let noted : Contact = record contact {
      peer_wipe_ask_before_delete = some ask_before_delete;
      peer_wipe_include_session = some include_session;
      peer_wipe_boundary_timestamp = some boundary.0;
      peer_wipe_boundary_sequence = some boundary.1;
    }
    modify (save_contact v contact_codec noted)
    pure noted

module _ (v : Platform) where
  -- The session's key, if it is to go too and is there.
  unfoldable pub session_keys : Bytes → Bool → Action (List Bytes)
  session_keys conversation_id false = pure []
  session_keys conversation_id true = do
    found ← get_encrypted v content (ratchet_key conversation_id)
    pure (if is_some found then ratchet_key conversation_id ∷ [] else [])

  abbrev pub remove_keys : List Bytes → Action ℕ
  remove_keys removed = modify (delete_many removed) >> pure (length removed)

  unfoldable pub wipe_conversation : Bytes → Bool → Action ℕ
  wipe_conversation conversation_id include_session = do
    listed ← gets (keys_with_prefix (message_key_prefix conversation_id))
    session ← session_keys conversation_id include_session
    remove_keys (listed ++ session)

  unfoldable pub wipe_conversation_since : Codec Message → Bytes → ℕ × ℕ → Bool → Action ℕ
  wipe_conversation_since codec conversation_id boundary include_session = do
    messages ← state (list_messages v codec conversation_id)
    session ← session_keys conversation_id include_session
    remove_keys (
        map (λ m. message_key conversation_id m.id) (filter (is_since boundary) messages)
        ++ session)
