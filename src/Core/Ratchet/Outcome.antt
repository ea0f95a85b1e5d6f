-- ===== src/Core/Ratchet/Outcome.antt =====
-- How a decryption on the slow path ends: with the session untouched, or with every staged change.
use dratchet.Base.{
  ℕ, ◌≡◌, refl, ◌⊎◌, inl, inr, not, Option, none, some, List, [], ◌++◌, Bytes, ok, err, arith,
  result_map, if◌then◌else◌, Result-cases, insert, ◌∷◌, bytes_eq, nat_eq, pair_eq,
}
use dratchet.Core.Errors.{Error, CoreResult}
use dratchet.Core.Envelope.{Envelope, header_bytes}
use dratchet.Core.Ratchet.Keys.{Primitives, RatchetStep, kdf_ck, skip_and_derive, aead_decrypt}
use dratchet.Core.Ratchet.State.{
  RatchetState, SkippedId, is_remote, record_content_delivered, stage_skipped,
  evict_oldest_skipped_beyond_lifetime_bound,
}
use dratchet.Core.Ratchet.Engine.{
  skip_old_chain, ratchet_step, chain_before, under_key, commit_step, commit_chain, decrypt_chain,
}

module _ (p : Primitives) where
  -- The results of the stages, as functions of what they read.
  abbrev pub old_keys : RatchetState → Envelope → CoreResult (List (SkippedId × Bytes))
  old_keys s e = if not (is_remote s.dh_remote e.dh_pub) then skip_old_chain p s e else ok []

  abbrev pub step_of : Bytes → RatchetState → Envelope → CoreResult (Option (RatchetStep p))
  step_of k s e =
      if not (is_remote s.dh_remote e.dh_pub)
      then result_map some (ratchet_step p k s e)
      else ok none

  -- All that a successful decryption writes.
  unfoldable pub committed :
      Envelope
      → Option (RatchetStep p)
      → Bytes
      → List (SkippedId × Bytes)
      → RatchetState
      → RatchetState
  committed e step chain_key keys s = record_content_delivered e.n (
      evict_oldest_skipped_beyond_lifetime_bound
        (stage_skipped keys (commit_chain p chain_key e.n (commit_step p e.dh_pub step s))))

  pub record Decrypts (k : Bytes) (e : Envelope) (s : RatchetState) : Type 0 where
    pub old : List (SkippedId × Bytes)
    pub step : Option (RatchetStep p)
    pub start : Bytes × ℕ
    pub derived : Bytes × List (ℕ × Bytes)
    pub plaintext : Bytes
    pub old_eq : old_keys s e ≡ ok old
    pub step_eq : step_of k s e ≡ ok step
    pub start_eq : chain_before p s step ≡ ok start
    pub derived_eq : skip_and_derive p start.1 start.0 e.n s.max_skip ≡ ok derived
    pub opened : aead_decrypt p (kdf_ck p derived.0).1 (header_bytes e) e.ciphertext ≡ ok plaintext

  abbrev pub after : {k : Bytes} {e : Envelope} {s : RatchetState} → Decrypts k e s → RatchetState
  after {e} {s} d =
      committed e d.step (kdf_ck p d.derived.0).0 (d.old ++ under_key p e.dh_pub d.derived.1) s

  pub decrypt_chain_cases :
      (k : Bytes) (e : Envelope) (s : RatchetState)
      → ((x : Error) × (decrypt_chain p k e s ≡ (err x, s)))
        ⊎ ((d : Decrypts k e s) × (decrypt_chain p k e s ≡ (ok d.plaintext, after d)))
  unfolding decrypt_chain committed
  decrypt_chain_cases k e s = elim (Result-cases (old_keys s e)) [
    | inr (x, h) ↦ inl (x, ground (arith, h))
    | inl (old, ho) ↦ elim (Result-cases (step_of k s e)) [
      | inr (x, h) ↦ inl (x, ground (arith, h, ho))
      | inl (step, hs) ↦ elim (Result-cases (chain_before p s step)) [
        | inr (x, h) ↦ inl (x, ground (arith, h, ho, hs))
        | inl (start, hb) ↦ elim (Result-cases (skip_and_derive p start.1 start.0 e.n s.max_skip)) [
          | inr (x, h) ↦ inl (x, ground (arith, h, ho, hs, hb))
          | inl (derived, hd) ↦
              elim (Result-cases
                (aead_decrypt p (kdf_ck p derived.0).1 (header_bytes e) e.ciphertext)) [
                  | inr (x, h) ↦ inl (x, ground (arith, h, ho, hs, hb, hd))
                  | inl (m, hm) ↦ inr (
                    record {
                      old = old;
                      step = step;
                      start = start;
                      derived = derived;
                      plaintext = m;
                      old_eq = ho;
                      step_eq = hs;
                      start_eq = hb;
                      derived_eq = hd;
                      opened = hm;
                    },
                    ground (arith, ho, hs, hb, hd, hm),
                  )
                ]
        ]
      ]
    ]
  ]

  -- Where each stage gives a result, so does the whole.
  pub decrypt_chain_of :
      (k : Bytes) (e : Envelope) (s : RatchetState) (d : Decrypts k e s)
      → decrypt_chain p k e s ≡ (ok d.plaintext, after d)
  unfolding decrypt_chain committed
  decrypt_chain_of k e s d = ground (arith, d.old_eq, d.step_eq, d.start_eq, d.derived_eq, d.opened)

  -- What staging the skipped keys leaves alone.
  abbrev Same : RatchetState → RatchetState → Type 0
  Same t s =
      (t.conversation_id ≡ s.conversation_id)
      × (t.dh_remote ≡ s.dh_remote)
      × (t.receiving_chain_key ≡ s.receiving_chain_key)
      × (t.recv_n ≡ s.recv_n)
      × (t.root_key ≡ s.root_key)
      × (t.dh_self ≡ s.dh_self)
      × (t.sending_chain_key ≡ s.sending_chain_key)
      × (t.send_n ≡ s.send_n)

  stage_skipped-Same :
      (keys : List (SkippedId × Bytes)) (s : RatchetState) → Same (stage_skipped keys s) s
  unfolding stage_skipped
  stage_skipped-Same [] s = (refl, refl, refl, refl, refl, refl, refl, refl)
  stage_skipped-Same ((id, key) ∷ rest) s =
      stage_skipped-Same rest
        (record s { skipped = insert id key s.skipped; skipped_order = s.skipped_order ++ id ∷ [] })

  -- What a successful decryption leaves in the session, but for the cache and the tracker.
  pub committed-Same :
      (e : Envelope) (step : Option (RatchetStep p)) (ck : Bytes) (keys : List (SkippedId × Bytes))
      (s : RatchetState)
      → Same (committed e step ck keys s) (commit_chain p ck e.n (commit_step p e.dh_pub step s))
  unfolding committed evict_oldest_skipped_beyond_lifetime_bound record_content_delivered
  committed-Same e step ck keys s =
      stage_skipped-Same keys (commit_chain p ck e.n (commit_step p e.dh_pub step s))
