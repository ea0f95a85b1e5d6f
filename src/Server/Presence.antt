-- ===== src/Server/Presence.antt =====
-- server/src/ws.rs: authentication, presence, the relay of rendezvous frames, and the end of a
-- connection. A frame that does not decode is refused before these handlers.
pub mod Access
pub mod SignIn
use dratchet.Base.{
  ℕ, zero, suc, ◌/◌, Bool, true, false, not, ◌||◌, Option, none, some, List, [], ◌∷◌, Bytes,
  bytes_eq, ltb, if◌then◌else◌, lookup, insert, remove, length, any, elem, ok, err, ok_or, is_some,
}
use dratchet.Core.Identity.{Signatures, verify_auth_challenge_signature, fingerprint_of_public_key}
use dratchet.Server.Errors.{
  Error, ServerResult, auth_required, auth_failed, already_authenticated, malformed_frame,
  sdp_too_large, ice_candidates_invalid, rate_limited,
}
use dratchet.Server.Abuse.{ConnectionId, Fingerprint, nanos_per_sec, rendezvous_allow}
use dratchet.Server.State.{
  Inner, Frame, PresenceState, online, away, offline, ack, presence_update, rendezvous_offer,
  rendezvous_answer, or_default, set_add, try_send, max_sdp_len, max_ice_candidates,
  max_ice_candidate_len,
}
use dratchet.Server.State.Action.{Action, ◌>>=◌, ◌>>◌, pure, lift, gets, state, modify, fail_if}
use dratchet.Server.Mailbox.{Moment, exactly, reply}

unfoldable pub presence_wire : PresenceState → ℕ × Option ℕ
presence_wire online = (0, none)
presence_wire away = (1, none)
presence_wire (offline last_seen) = (2, some last_seen)

abbrev pub presence_frame : Fingerprint → PresenceState → Frame
presence_frame who new_state =
    let (state_byte, last_seen) = presence_wire new_state in
    presence_update who state_byte last_seen

-- Send to the connection of an identity, if it has one.
unfoldable pub send_to : Fingerprint → Frame → Inner → Bool × Inner
send_to who frame s = elim (lookup who s.connections) [
  | none ↦ (false, s)
  | some tx ↦ try_send tx frame s
]

unfoldable pub send_all : List Fingerprint → Frame → Inner → Inner
send_all [] frame s = s
send_all (who ∷ others) frame s = send_all others frame (send_to who frame s).1

unfoldable pub notify_presence : Fingerprint → PresenceState → List Fingerprint → Inner → Inner
notify_presence who new_state subscribers = send_all subscribers (presence_frame who new_state)

abbrev pub subscribers_of : Fingerprint → Inner → List Fingerprint
subscribers_of who s = or_default (lookup who s.subscriptions)

abbrev pub set_presence : Fingerprint → PresenceState → Inner → Inner
set_presence who new_state s = record s { presence = insert who new_state s.presence }

abbrev pub connect : Fingerprint → ConnectionId → Inner → Inner
connect who tx s = record s { connections = insert who tx s.connections }

abbrev pub disconnect : Fingerprint → Inner → Inner
disconnect who s = record s { connections = remove who s.connections }

-- The answer is the identity that the connection has from now on.
unfoldable pub auth_response :
    Signatures → ConnectionId → Bytes → Option Fingerprint → Bytes → Bytes → Action Fingerprint
auth_response g tx nonce authenticated identity_key signature = do
  fail_if (is_some authenticated) already_authenticated
  lift (elim (verify_auth_challenge_signature g identity_key nonce signature) [
    | ok _ ↦ ok tt
    | err _ ↦ err auth_failed
  ])
  modify (set_presence (fingerprint_of_public_key g identity_key) online)
  modify (connect (fingerprint_of_public_key g identity_key) tx)
  subscribers ← gets (subscribers_of (fingerprint_of_public_key g identity_key))
  reply tx (ack true)
  modify (notify_presence (fingerprint_of_public_key g identity_key) online subscribers)
  pure (fingerprint_of_public_key g identity_key)

abbrev pub announced_state : ℕ → ServerResult PresenceState
announced_state zero = ok online
announced_state (suc zero) = ok away
announced_state (suc (suc n)) = err (malformed_frame "unknown presence state")

unfoldable pub presence_announce : Option Fingerprint → ℕ → Action (Unit {0})
presence_announce authenticated state_byte = do
  fp ← lift (ok_or authenticated auth_required)
  new_state ← lift (announced_state state_byte)
  modify (set_presence fp new_state)
  subscribers ← gets (subscribers_of fp)
  modify (notify_presence fp new_state subscribers)

unfoldable pub has_evidence : Fingerprint → Fingerprint → Inner → Bool
has_evidence from target s = elim (lookup from s.fetch_evidence) [
  | none ↦ false
  | some targets ↦ elem target targets
]

abbrev pub subscribe : Fingerprint → Fingerprint → Inner → Inner
subscribe target subscriber s = record s {
  subscriptions = insert target (set_add subscriber (subscribers_of target s)) s.subscriptions;
}

unfoldable pub presence_subscribe : ConnectionId → Option Fingerprint → Bytes → Action (Unit {0})
presence_subscribe tx authenticated identity_fingerprint = do
  subscriber ← lift (ok_or authenticated auth_required)
  target ←
      lift
        (exactly 32 identity_fingerprint (malformed_frame "identity_fingerprint must be 32 bytes"))
  evidence ← gets (has_evidence subscriber target)
  fail_if (not evidence) auth_required
  modify (subscribe target subscriber)
  current ← gets (λ s. lookup target s.presence)
  elim current [ none ↦ pure tt | some state_now ↦ reply tx (presence_frame target state_now) ]

unfoldable pub validate_rendezvous_payload : Bytes → List Bytes → ServerResult (Unit {0})
validate_rendezvous_payload sdp ice_candidates =
    if ltb max_sdp_len (length sdp)
    then err sdp_too_large
    else if ltb max_ice_candidates (length ice_candidates)
        || any (λ c. ltb max_ice_candidate_len (length c)) ice_candidates
    then err ice_candidates_invalid
    else ok tt

abbrev pub meter_rendezvous : Moment → Fingerprint → Inner → Bool × Inner
meter_rendezvous now from s =
    let (granted, limiter) = rendezvous_allow now.instant from s.rendezvous_rate_limiter in
    (granted, record s { rendezvous_rate_limiter = limiter })

unfoldable pub authorize_rendezvous : Moment → Fingerprint → Bytes → Action (Unit {0})
authorize_rendezvous now from peer_fingerprint = do
  target ← lift (exactly 32 peer_fingerprint (malformed_frame "peer_fingerprint must be 32 bytes"))
  evidence ← gets (has_evidence from target)
  fail_if (not evidence) auth_required
  granted ← state (meter_rendezvous now from)
  fail_if (not granted) rate_limited

unfoldable pub relay_to_peer : Bytes → ConnectionId → Frame → Action (Unit {0})
relay_to_peer to original_sender_tx frame = do
  to_fp ← lift (exactly 32 to (malformed_frame "peer_fingerprint must be 32 bytes"))
  sent ← state (send_to to_fp frame)
  reply original_sender_tx (ack sent)

-- An offer and an answer differ in the frame that is relayed.
pub data Rendezvous : Type 0 where
  offer answer : Rendezvous

abbrev pub relayed : Rendezvous → Fingerprint → Bytes → List Bytes → Frame
relayed offer = rendezvous_offer
relayed answer = rendezvous_answer

unfoldable pub rendezvous :
    Rendezvous
    → Moment
    → ConnectionId
    → Option Fingerprint
    → Bytes
    → Bytes
    → List Bytes
    → Action (Unit {0})
rendezvous kind now tx authenticated peer_fingerprint sdp ice_candidates = do
  from ← lift (ok_or authenticated auth_required)
  lift (validate_rendezvous_payload sdp ice_candidates)
  authorize_rendezvous now from peer_fingerprint
  relay_to_peer peer_fingerprint tx (relayed kind from sdp ice_candidates)

-- The end of `handle_socket` for an authenticated connection: its own channel closes as well.
unfoldable pub close_connection : Moment → ConnectionId → Option Fingerprint → Inner → Inner
close_connection now tx none s = record s { outboxes = remove tx s.outboxes }
close_connection now tx (some fp) s =
    let last_seen = now.wall / nanos_per_sec in
    let left = disconnect fp (set_presence fp (offline last_seen) s) in
    let told = notify_presence fp (offline last_seen) (subscribers_of fp left) left in
    record told { outboxes = remove tx told.outboxes }
