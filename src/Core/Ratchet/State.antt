-- ===== src/Core/Ratchet/State.antt =====
-- core/src/ratchet.rs: the session's state, its two constructors, and the bookkeeping that a
-- decryption commits.
use dratchet.Base.{
  ℕ, ◌*◌, Bool, false, ◌&&◌, Option, none, some, List, [], ◌∷◌, ◌++◌, Bytes, bytes_eq, nat_eq,
  pair_eq, ◌==◌, ltb, leb, if◌then◌else◌, Map, insert, remove, length, ok, err, ◌>>◌,
}
use dratchet.Core.Errors.{CoreResult, invalid_max_skip}
use dratchet.Core.Ratchet.Keys.{Primitives, kdf_rk}
use dratchet.Core.Ratchet.Tracker.{Tracker, track, fresh_tracker}

abbrev pub min_max_skip : ℕ
min_max_skip = 50

abbrev pub max_max_skip : ℕ
max_max_skip = 150

abbrev pub skipped_cache_lifetime_multiplier : ℕ
skipped_cache_lifetime_multiplier = 4

-- A remote key and a message number: what a skipped message key is filed under.
abbrev pub SkippedId : Type 0
SkippedId = Bytes × ℕ

pub record RatchetState : Type 0 where
  pub conversation_id : Bytes
  pub max_skip : ℕ
  pub root_key : Bytes
  pub dh_self : Option (Bytes × Bytes)
  pub dh_remote : Option Bytes
  pub sending_chain_key : Option Bytes
  pub receiving_chain_key : Option Bytes
  pub send_n : ℕ
  pub recv_n : ℕ
  pub prev_chain_len : ℕ
  pub skipped : Map SkippedId Bytes
  pub skipped_order : List SkippedId
  pub tracker : Tracker

unfoldable pub validate_max_skip : ℕ → CoreResult (Unit {0})
validate_max_skip max_skip =
    if leb min_max_skip max_skip && leb max_skip max_max_skip
    then ok tt
    else err (invalid_max_skip max_skip min_max_skip max_max_skip)

-- `dh_self_secret` is the fresh secret that the random source gives.
unfoldable pub init_as_initiator :
    Primitives → Bytes → Bytes → Bytes → Bytes → ℕ → CoreResult RatchetState
unfolding validate_max_skip
init_as_initiator p dh_self_secret conversation_id root_key responder_dh_public max_skip = do
  validate_max_skip max_skip
  let dh_self_public = p.public_key dh_self_secret
  let dh_output = p.diffie_hellman dh_self_secret responder_dh_public
  let (new_root, sending_chain_key) = kdf_rk p root_key dh_output
  ok (record {
    conversation_id = conversation_id;
    max_skip = max_skip;
    root_key = new_root;
    dh_self = some (dh_self_secret, dh_self_public);
    dh_remote = some responder_dh_public;
    sending_chain_key = some sending_chain_key;
    receiving_chain_key = none;
    send_n = 0;
    recv_n = 0;
    prev_chain_len = 0;
    skipped = [];
    skipped_order = [];
    tracker = fresh_tracker;
  })

unfoldable pub init_as_responder : Primitives → Bytes → Bytes → Bytes → ℕ → CoreResult RatchetState
unfolding validate_max_skip
init_as_responder p conversation_id root_key own_dh_secret max_skip = do
  validate_max_skip max_skip
  let own_dh_public = p.public_key own_dh_secret
  ok (record {
    conversation_id = conversation_id;
    max_skip = max_skip;
    root_key = root_key;
    dh_self = some (own_dh_secret, own_dh_public);
    dh_remote = none;
    sending_chain_key = none;
    receiving_chain_key = none;
    send_n = 0;
    recv_n = 0;
    prev_chain_len = 0;
    skipped = [];
    skipped_order = [];
    tracker = fresh_tracker;
  })

-- `self.dh_remote == Some(key)`
abbrev pub is_remote : Option Bytes → Bytes → Bool
is_remote none key = false
is_remote (some remote) key = remote == key

unfoldable pub record_content_delivered : ℕ → RatchetState → RatchetState
record_content_delivered n s = record s { tracker = track n s.tracker }

-- `self.skipped.insert` and `self.skipped_order.push_back` for each newly skipped key
unfoldable pub stage_skipped : List (SkippedId × Bytes) → RatchetState → RatchetState
stage_skipped [] s = s
stage_skipped ((id, key) ∷ rest) s =
    stage_skipped rest
      (record s { skipped = insert id key s.skipped; skipped_order = s.skipped_order ++ id ∷ [] })

-- The loop of the eviction: it pops the oldest entry while the cache is over its cap.
unfoldable pub evict_loop :
    ℕ → Map SkippedId Bytes → List SkippedId → Map SkippedId Bytes × List SkippedId
evict_loop cap skipped [] = (skipped, [])
evict_loop cap skipped (oldest ∷ order) =
    let rest = evict_loop cap (remove oldest skipped) order in
    if ltb cap (length skipped) then rest else (skipped, oldest ∷ order)

unfoldable pub evict_oldest_skipped_beyond_lifetime_bound : RatchetState → RatchetState
evict_oldest_skipped_beyond_lifetime_bound s =
    let (skipped, order) =
      evict_loop (s.max_skip * skipped_cache_lifetime_multiplier) s.skipped s.skipped_order in
    record s { skipped = skipped; skipped_order = order }

unfoldable pub receiving_progress : RatchetState → Option (Bytes × ℕ)
receiving_progress s = elim s.dh_remote [
  | none ↦ none
  | some dh_remote ↦ elim s.tracker.contiguous [
    | none ↦ none
    | some highest ↦ some (dh_remote, highest)
  ]
]
