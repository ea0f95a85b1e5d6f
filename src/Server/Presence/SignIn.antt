-- ===== src/Server/Presence/SignIn.antt =====
-- server/src/ws.rs: the whole decision of an AuthResponse.
use dratchet.Base.{
  ◌≡◌, ◌≢◌, ◌∙◌, refl, ap, true, false, Option, none, some, List, [], ◌∷◌, ◌++◌, Bytes, codes,
  bytes_eq, nat_eq, ok, err, arith, ◌⊎◌, inl, inr, Bool-cases, Option-cases, eqb, length, lookup,
  lookup-insert_self,
}
use dratchet.Core.Identity.{
  Signatures, verify_auth_challenge_signature, verify_signature, fingerprint_of_public_key,
  auth_challenge_signing_payload,
}
use dratchet.Server.Errors.{ServerResult, auth_failed, already_authenticated}
use dratchet.Server.Abuse.{Fingerprint, ConnectionId}
use dratchet.Server.State.{Inner, Frame, online, ack, try_send}
use dratchet.Server.Presence.{
  auth_response, send_to, send_all, notify_presence, presence_frame, subscribers_of, set_presence,
  connect,
}

-- Who is connected and present is the same in both states.
abbrev SamePeople : Inner → Inner → Type 0
SamePeople s t = (t.connections ≡ s.connections) × (t.presence ≡ s.presence)

try_send-SamePeople :
    (tx : ConnectionId) (frame : Frame) (s : Inner) → SamePeople s (try_send tx frame s).1
unfolding try_send
try_send-SamePeople tx frame s = ground arith

send_to-SamePeople :
    (who : Fingerprint) (frame : Frame) (s : Inner) → SamePeople s (send_to who frame s).1
unfolding send_to
send_to-SamePeople who frame s = elim (Option-cases (lookup who s.connections)) [
  | inl absent ↦ rw (absent, send_to) (refl, refl)
  | inr (tx, e) ↦ rw (e, send_to) (try_send-SamePeople tx frame s)
]

send_all-SamePeople :
    (others : List Fingerprint) (frame : Frame) (s : Inner) → SamePeople s (send_all others frame s)
unfolding send_all
send_all-SamePeople [] frame s = (refl, refl)
send_all-SamePeople (who ∷ others) frame s =
    let (c1, p1) = send_to-SamePeople who frame s in
    let (c2, p2) = send_all-SamePeople others frame (send_to who frame s).1 in (c2 ∙ c1, p2 ∙ p1)

-- A connection that has come to be that of an identity, which is online
abbrev pub IsSignedIn : ConnectionId → Fingerprint → ServerResult Fingerprint × Inner → Type 0
IsSignedIn tx fp r =
    (r.0 ≡ ok fp) × (lookup fp r.1.connections ≡ some tx) × (lookup fp r.1.presence ≡ some online)

-- What a client signs: the nonce of the connection, in a domain of its own
abbrev pub challenge : Bytes → Bytes
challenge nonce = codes "dratchet-auth-challenge-v1" ++ nonce

-- The signature checks, over the challenge of the connection, under a key of 32 bytes.
abbrev pub IsSigned : Signatures → (nonce key signature : Bytes) → Type 0
IsSigned g nonce key signature =
    (length key ≡ 32) × (g.verify key (challenge nonce) signature ≡ true)

abbrev pub IsUnsigned : Signatures → (nonce key signature : Bytes) → Type 0
IsUnsigned g nonce key signature =
    (length key ≢ 32) ⊎ (g.verify key (challenge nonce) signature ≡ false)

auth_response-IsSignedIn :
    (g : Signatures) (tx : ConnectionId) (nonce key signature : Bytes) (s : Inner)
    → IsSigned g nonce key signature
    → IsSignedIn tx
        (fingerprint_of_public_key g key)
        (auth_response g tx nonce none key signature s)
unfolding auth_response verify_auth_challenge_signature verify_signature notify_presence
    auth_challenge_signing_payload
auth_response-IsSignedIn g tx nonce key signature s (sized, good) =
    let fp = fingerprint_of_public_key g key in
    let joined : Inner = connect fp tx (set_presence fp online s) in
    let (c1, p1) = try_send-SamePeople tx (ack true) joined in
    let (c2, p2) =
      send_all-SamePeople (subscribers_of fp joined) (presence_frame fp online)
        (try_send tx (ack true) joined).1 in
    rw (sized, good)
      (
        refl,
        ap (lookup fp) (c2 ∙ c1) ∙ lookup-insert_self fp tx s.connections,
        ap (lookup fp) (p2 ∙ p1) ∙ lookup-insert_self fp online s.presence,
      )

-- An AuthResponse signs the connection in exactly where it has no identity yet and the signature
-- checks, under a key of 32 bytes, over the domain-separated challenge of that connection: then
-- the answer is the key's fingerprint, the connection is registered as that identity's, and the
-- identity is online. Any other response is refused with the error for it and changes nothing.
pub auth_response_sound :
    (g : Signatures) (tx : ConnectionId) (nonce : Bytes) (authenticated : Option Fingerprint)
    (key signature : Bytes) (s : Inner)
    → ((authenticated ≡ none)
        × IsSigned g nonce key signature
        × IsSignedIn tx
            (fingerprint_of_public_key g key)
            (auth_response g tx nonce authenticated key signature s))
      ⊎ ((authenticated ≡ none)
          × IsUnsigned g nonce key signature
          × (auth_response g tx nonce authenticated key signature s ≡ (err auth_failed, s)))
      ⊎ ((authenticated ≢ none)
          × (auth_response g tx nonce authenticated key signature s
              ≡ (err already_authenticated, s)))
unfolding auth_response verify_auth_challenge_signature verify_signature
    auth_challenge_signing_payload
auth_response_sound g tx nonce (some fp) key signature s = inr (inr (λ e. ground (arith, e), refl))
auth_response_sound g tx nonce none key signature s = elim (Bool-cases (eqb (length key) 32)) [
  | inr wrong ↦ inr (inl (refl, inl (λ e. ground (arith, wrong, e)), rw wrong refl))
  | inl fits ↦ elim (Bool-cases (g.verify key (challenge nonce) signature)) [
    | inr bad ↦ inr (inl (refl, inr bad, rw (fits, bad) refl))
    | inl good ↦
        let signed : IsSigned g nonce key signature = (ground (arith, fits), good) in
        inl (refl, signed, auth_response-IsSignedIn g tx nonce key signature s signed)
  ]
]
