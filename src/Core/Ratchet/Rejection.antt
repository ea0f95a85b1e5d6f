-- ===== src/Core/Ratchet/Rejection.antt =====
-- A message that is refused leaves no trace in the session.
use dratchet.Base.{
  ◌≡◌, Bytes, bytes_eq, nat_eq, pair_eq, ok, err, arith, lookup, Option-cases, inl, inr, Bool-cases,
  ◌==◌,
}
use dratchet.Core.Errors.{Error}
use dratchet.Core.Envelope.{Envelope}
use dratchet.Core.Ratchet.Keys.{Primitives}
use dratchet.Core.Ratchet.State.{RatchetState}
use dratchet.Core.Ratchet.Engine.{decrypt_cached, decrypt_chain, decrypt_raw}

module _ (p : Primitives) where
  decrypt_cached_rejects :
      (e : Envelope) (mk : Bytes) (s s' : RatchetState) (x : Error)
      → decrypt_cached p e mk s ≡ (err x, s')
      → s' ≡ s
  unfolding decrypt_cached
  decrypt_cached_rejects e mk s s' x h = ground arith

  decrypt_chain_rejects :
      (k : Bytes) (e : Envelope) (s s' : RatchetState) (x : Error)
      → decrypt_chain p k e s ≡ (err x, s')
      → s' ≡ s
  unfolding decrypt_chain
  decrypt_chain_rejects k e s s' x h = ground arith

  -- Decryption is transactional: whenever it fails, for whatever reason, the session is the one
  -- that it was called on.
  pub decrypt_raw_rejects :
      (k : Bytes) (e : Envelope) (s s' : RatchetState) (x : Error)
      → decrypt_raw p k e s ≡ (err x, s')
      → s' ≡ s
  unfolding decrypt_raw
  decrypt_raw_rejects k e s s' x h = elim (Option-cases (lookup (e.dh_pub, e.n) s.skipped)) [
    | inl miss ↦ ground (arith, miss, decrypt_chain_rejects k e s s' x)
    | inr (mk, hit) ↦ ground (arith, hit, decrypt_cached_rejects e mk s s' x)
  ]

  -- What decrypts names the session's own conversation.
  pub decrypt_raw_conversation :
      (k : Bytes) (e : Envelope) (s s' : RatchetState) (m : Bytes)
      → decrypt_raw p k e s ≡ (ok m, s')
      → e.conversation_id ≡ s.conversation_id
  unfolding decrypt_raw
  decrypt_raw_conversation k e s s' m h =
      elim (Bool-cases (e.conversation_id == s.conversation_id)) [
        | inl same ↦ (bytes_eq.decides _ _).0 same
        | inr other ↦ cc (rw other at h)
      ]
