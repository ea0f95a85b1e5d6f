-- ===== src/Core/Identity/Domains.antt =====
-- Domain separation: what is signed for one purpose is never what is signed for another.
use dratchet.Base.{ℕ, ◌≢◌, Bytes, arith, drop, ap}
use dratchet.Core.Identity.{prekey_signing_payload, auth_challenge_signing_payload}

-- No challenge nonce, of whatever length, makes the signed bytes those of a prekey.
pub prekey-ne-auth_challenge :
    (id : ℕ) (key nonce : Bytes)
    → prekey_signing_payload id key ≢ auth_challenge_signing_payload nonce
unfolding prekey_signing_payload auth_challenge_signing_payload
prekey-ne-auth_challenge id key nonce h = ground (arith, ap (drop 9) h)
