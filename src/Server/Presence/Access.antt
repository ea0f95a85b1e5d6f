-- ===== src/Server/Presence/Access.antt =====
-- server/src/ws.rs: who may watch and call: the evidence of a bundle fetch.
use dratchet.Base.{
  ◌≡◌, refl, false, some, List, Bytes, bytes_eq, ok, err, arith, ◌⊎◌, inl, inr, Bool-cases, eqb,
  length,
}
use dratchet.Server.Errors.{
  Error, ServerResult, auth_required, malformed_frame, sdp_too_large, ice_candidates_invalid,
}
use dratchet.Server.Abuse.{Fingerprint, ConnectionId}
use dratchet.Server.State.{Inner}
use dratchet.Server.Mailbox.{Moment}
use dratchet.Server.Presence.{
  presence_subscribe, rendezvous, Rendezvous, has_evidence, authorize_rendezvous,
  validate_rendezvous_payload,
}

-- A run that fails and changes nothing.
abbrev pub IsRefused {ℓ} : {A : Type ℓ} → ServerResult A × Inner → Inner → Type ℓ
IsRefused r s = (e : Error) × (r ≡ (err e, s))

authorize-IsRefused :
    (now : Moment) (from peer : Fingerprint) (s : Inner)
    → has_evidence from peer s ≡ false
    → (authorize_rendezvous now from peer s
        ≡ (err (malformed_frame "peer_fingerprint must be 32 bytes"), s))
      ⊎ (authorize_rendezvous now from peer s ≡ (err auth_required, s))
unfolding authorize_rendezvous
authorize-IsRefused now from peer s missing = ground (arith, missing)

validate_cases :
    (sdp : Bytes) (candidates : List Bytes)
    → (validate_rendezvous_payload sdp candidates ≡ err sdp_too_large)
      ⊎ (validate_rendezvous_payload sdp candidates ≡ err ice_candidates_invalid)
      ⊎ (validate_rendezvous_payload sdp candidates ≡ ok tt)
unfolding validate_rendezvous_payload
validate_cases sdp candidates = ground arith

rendezvous-IsRefused :
    (kind : Rendezvous) (now : Moment) (tx : ConnectionId) (from peer : Fingerprint) (sdp : Bytes)
    (candidates : List Bytes) (s : Inner)
    → has_evidence from peer s ≡ false
    → IsRefused (rendezvous kind now tx (some from) peer sdp candidates s) s
unfolding rendezvous
rendezvous-IsRefused kind now tx from peer sdp candidates s missing =
    elim (validate_cases sdp candidates) [
      | inl long ↦ (sdp_too_large, rw long refl)
      | inr (inl many) ↦ (ice_candidates_invalid, rw many refl)
      | inr (inr fine) ↦ elim (authorize-IsRefused now from peer s missing) [
        | inl malformed ↦
            (malformed_frame "peer_fingerprint must be 32 bytes", ground (arith, fine, malformed))
        | inr refused ↦ (auth_required, ground (arith, fine, refused))
      ]
    ]

subscribe-IsRefused :
    (tx : ConnectionId) (from peer : Fingerprint) (s : Inner)
    → has_evidence from peer s ≡ false
    → IsRefused (presence_subscribe tx (some from) peer s) s
unfolding presence_subscribe
subscribe-IsRefused tx from peer s missing = elim (Bool-cases (eqb (length peer) 32)) [
  | inl fits ↦ (auth_required, rw (fits, missing) refl)
  | inr wrong ↦ (malformed_frame "identity_fingerprint must be 32 bytes", rw wrong refl)
]

-- An authenticated identity without evidence of having fetched the peer's bundle gets nowhere with
-- a rendezvous frame or a subscription: each fails, no frame is queued for anyone and nothing else
-- of the state changes.
pub no_evidence_no_contact :
    (kind : Rendezvous) (now : Moment) (tx : ConnectionId) (from peer : Fingerprint) (sdp : Bytes)
    (candidates : List Bytes) (s : Inner)
    → has_evidence from peer s ≡ false
    → IsRefused (rendezvous kind now tx (some from) peer sdp candidates s) s
      × IsRefused (presence_subscribe tx (some from) peer s) s
no_evidence_no_contact kind now tx from peer sdp candidates s missing = (
  rendezvous-IsRefused kind now tx from peer sdp candidates s missing,
  subscribe-IsRefused tx from peer s missing,
)
