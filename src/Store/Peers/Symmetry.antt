-- ===== src/Store/Peers/Symmetry.antt =====
-- Both clients of a conversation compute the same things.
use dratchet.Base.{
  ◌≡◌, refl, Bool, true, ◌&&◌, ◌||◌, some, [], ◌∷◌, Bytes, arith, ◌⊎◌, inl, inr, Bool-cases,
}
use dratchet.Base.Names.{bytes_le}
use dratchet.Core.Identity.{Signatures}
use dratchet.Core.Conversation.{conversation_id}
use dratchet.Store.Records.{Contact}
use dratchet.Store.Peers.{
  compute_mailbox_id, with_routing_id, effective_wipe_ask_before_delete,
  effective_wipe_include_session,
}

bytes_le_total : (a b : Bytes) → (bytes_le a b ≡ true) ⊎ (bytes_le b a ≡ true)
unfolding bytes_le
bytes_le_total [] b = inl refl
bytes_le_total (x ∷ a) [] = inr refl
bytes_le_total (x ∷ a) (y ∷ b) = elim (bytes_le_total a b) [
  | inl h ↦ ground (arith, h)
  | inr h ↦ ground (arith, h)
]

bytes_le_antisym : (a b : Bytes) → bytes_le a b ≡ true → bytes_le b a ≡ true → a ≡ b
unfolding bytes_le
bytes_le_antisym [] [] h k = refl
bytes_le_antisym [] (y ∷ b) h k = absurd (ground arith)
bytes_le_antisym (x ∷ a) [] h k = absurd (ground arith)
bytes_le_antisym (x ∷ a) (y ∷ b) h k = ground (arith, bytes_le_antisym a b)

-- The id of a conversation does not depend on which side computes it.
pub conversation_id_comm :
    (g : Signatures) (a b : Bytes) → conversation_id g a b ≡ conversation_id g b a
unfolding conversation_id
conversation_id_comm g a b = elim (Bool-cases (bytes_le a b)) [
  | inl ab ↦ elim (Bool-cases (bytes_le b a)) [
    | inl ba ↦ rw (bytes_le_antisym a b ab ba) refl
    | inr not_ba ↦ rw (ab, not_ba) refl
  ]
  | inr not_ab ↦ elim (bytes_le_total a b) [
    | inl ab ↦ absurd (ground (arith, ab, not_ab))
    | inr ba ↦ rw (not_ab, ba) refl
  ]
]

-- Two contact records of one conversation, each kept by one of the sides, that agree on what the two
-- announced: each holds as the peer's what the other holds as its own.
pub record Mirrored (a b : Contact) : Type 0 where
  pub routes : a.peer_routing_id ≡ some b.local_routing_id
  pub routes_back : b.peer_routing_id ≡ some a.local_routing_id
  pub asks : a.peer_wipe_ask_before_delete ≡ some b.wipe_ask_before_delete
  pub asks_back : b.peer_wipe_ask_before_delete ≡ some a.wipe_ask_before_delete
  pub sessions : a.peer_wipe_include_session ≡ some b.wipe_include_session
  pub sessions_back : b.peer_wipe_include_session ≡ some a.wipe_include_session

and_comm : (a b : Bool) → (a && b) ≡ (b && a)
and_comm a b = ground arith

or_comm : (a b : Bool) → (a || b) ≡ (b || a)
or_comm a b = ground arith

-- Where the announcements of both have arrived, the two sides compute the same mailbox from the routing ids
-- and apply the same wipe policy.
pub peers_agree :
    (g : Signatures) (a b : Contact)
    → Mirrored a b
    → ((with_routing_id g b.local_routing_id a).mailbox_id
        ≡ (with_routing_id g a.local_routing_id b).mailbox_id)
      × (effective_wipe_ask_before_delete a ≡ effective_wipe_ask_before_delete b)
      × (effective_wipe_include_session a ≡ effective_wipe_include_session b)
unfolding with_routing_id compute_mailbox_id effective_wipe_ask_before_delete
    effective_wipe_include_session
peers_agree g a b m = (
  conversation_id_comm g a.local_routing_id b.local_routing_id,
  rw (m.asks, m.asks_back) (and_comm a.wipe_ask_before_delete b.wipe_ask_before_delete),
  rw (m.sessions, m.sessions_back) (or_comm a.wipe_include_session b.wipe_include_session),
)
