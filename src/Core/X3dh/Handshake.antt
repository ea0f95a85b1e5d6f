-- ===== src/Core/X3dh/Handshake.antt =====
-- The two sides of the handshake agree on the root key.
use dratchet.Base.{◌≡◌, Option, none, some, Bytes, ok, arith, Option-cases, inl, inr}
use dratchet.Core.Ratchet.Keys.{Primitives}
use dratchet.Core.Ratchet.Conversation.{DhAgrees}
use dratchet.Core.Identity.{Signatures, PrekeyBundle, OneTimePrekeyPublic}
use dratchet.Core.X3dh.{X3dhInitResult, initiate, respond}

module _ (p : Primitives) where
  -- The one-time prekey of a bundle belongs to the secret that the responder keeps for it.
  abbrev pub Matches : Option OneTimePrekeyPublic → Option Bytes → Type 0
  Matches none none = Unit {0}
  Matches none (some s) = ⊥
  Matches (some k) none = ⊥
  Matches (some k) (some s) = k.key ≡ p.public_key s

  -- Where the initiator completes the handshake against a bundle whose keys belong to the
  -- responder's secrets, the responder completes it too and derives the same root key, with a
  -- one-time prekey and without, provided that X25519 agrees.
  pub respond-initiate :
      (g : Signatures) (eph ident spk resp : Bytes) (otp : Option Bytes) (b : PrekeyBundle)
      (r : X3dhInitResult)
      → DhAgrees p
      → b.identity_dh_public ≡ p.public_key resp
      → b.signed_prekey.key ≡ p.public_key spk
      → Matches b.one_time_prekey otp
      → initiate p g eph ident (p.public_key ident) b ≡ ok r
      → respond p resp spk otp r.message ≡ ok r.root_key
  unfolding initiate respond
  respond-initiate g eph ident spk resp none b r agrees hi hs ho h =
      elim (Option-cases b.one_time_prekey) [
        | inl e ↦ ground (arith, e, agrees ident spk, agrees eph resp, agrees eph spk, h)
        | inr (k, e) ↦ absurd (rw e at ho)
      ]
  respond-initiate g eph ident spk resp (some s) b r agrees hi hs ho h =
      elim (Option-cases b.one_time_prekey) [
        | inl e ↦ absurd (rw e at ho)
        | inr (k, e) ↦
            let key : k.key ≡ p.public_key s = rw e at ho in
            ground
              (arith, e, key, agrees ident spk, agrees eph resp, agrees eph spk, agrees eph s, h)
      ]
