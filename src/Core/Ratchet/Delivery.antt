-- ===== src/Core/Ratchet/Delivery.antt =====
-- A session that receives on a chain decrypts any message of it within the skip limit.
use dratchet.Base.{
  ℕ, suc, ◌+◌, ◌-◌, ◌≤◌, ◌<◌, ◌≡◌, refl, sym, ap, ◌∙◌, true, none, some, Bytes, bytes_eq, nat_eq,
  pair_eq, ok, arith, lookup, ◌==◌, [], Option, List,
}
use dratchet.Core.Words.{u32_mod}
use dratchet.Core.Envelope.{Envelope}
use dratchet.Core.Ratchet.Keys.{Primitives, RatchetStep, kdf_ck}
use dratchet.Core.Ratchet.Tracker.{wrapping_succ}
use dratchet.Core.Ratchet.Chain.{
  chain_key, message_keys, chain_key-next, chain_key-add, skip_and_derive_within,
}
use dratchet.Core.Ratchet.State.{RatchetState, SkippedId, is_remote}
use dratchet.Core.Ratchet.Engine.{
  decrypt_raw, decrypt_chain, under_key, chain_before, commit_step, commit_chain,
}
use dratchet.Core.Ratchet.Outcome.{Decrypts, committed, decrypt_chain_of, committed-Same}
use dratchet.Core.Ratchet.Agreement.{ReceivesOn, Sent}

module _ (p : Primitives) where
  -- Past the two guards `decrypt_raw` is the slow path.
  pub decrypt_raw_slow :
      (k : Bytes) (e : Envelope) (s : RatchetState)
      → e.conversation_id ≡ s.conversation_id
      → lookup (e.dh_pub, e.n) s.skipped ≡ none
      → decrypt_raw p k e s ≡ decrypt_chain p k e s
  unfolding decrypt_raw
  decrypt_raw_slow k e s same miss =
      let t : (e.conversation_id == s.conversation_id) ≡ true = (bytes_eq.decides _ _).1 same in
      rw (t, decrypt_raw) (rw (miss, decrypt_raw) refl)

  same_remote : (o : Option Bytes) (dh : Bytes) → o ≡ some dh → is_remote o dh ≡ true
  same_remote o dh h = rw h ((bytes_eq.decides dh dh).1 refl)

  commit_step-conversation :
      (dh : Bytes) (step : Option (RatchetStep p)) (r : RatchetState)
      → (commit_step p dh step r).conversation_id ≡ r.conversation_id
  unfolding commit_step
  commit_step-conversation dh none r = refl
  commit_step-conversation dh (some step) r = refl

  pub commit_step-none : (dh : Bytes) (r : RatchetState) → commit_step p dh none r ≡ r
  unfolding commit_step
  commit_step-none dh r = refl

  chain_before-none :
      (r : RatchetState) (ck : Bytes)
      → r.receiving_chain_key ≡ some ck
      → chain_before p r none ≡ ok (ck, r.recv_n)
  unfolding chain_before
  chain_before-none r ck h = rw (h, chain_before) refl

  -- After a message was decrypted the session stands behind it on its chain.
  pub committed-ReceivesOn :
      (conv dh ck : Bytes) (j : ℕ) (e : Envelope) (step : Option (RatchetStep p))
      (keys : List (SkippedId × Bytes)) (r : RatchetState)
      → r.conversation_id ≡ conv
      → (commit_step p e.dh_pub step r).dh_remote ≡ some dh
      → e.n ≡ j
      → j + 1 < u32_mod
      → let s = committed p e step (kdf_ck p (chain_key p j ck)).0 keys r in
        ReceivesOn p conv dh ck s × (s.recv_n ≡ j + 1)
  unfolding commit_chain
  committed-ReceivesOn conv dh ck j e step keys r same remote number room =
      let kept = committed-Same p e step (kdf_ck p (chain_key p j ck)).0 keys r in
      let next : wrapping_succ e.n ≡ suc j = omega arith in
      let recv : (committed p e step (kdf_ck p (chain_key p j ck)).0 keys r).recv_n ≡ suc j =
        kept.3 ∙ next in
      (
        record {
          conversation = kept.0 ∙ commit_step-conversation e.dh_pub step r ∙ same;
          remote_key = kept.1 ∙ remote;
          chain =
              kept.2
              ∙ ap some (chain_key-next p j ck ∙ ap (λ (n : ℕ). chain_key p n ck) (sym recv));
        },
        omega (arith, recv),
      )

  module _ (conv dh ck : Bytes) where
    in_chain :
        (k : Bytes) (j : ℕ) (m : Bytes) (e : Envelope) (r : RatchetState)
        → ReceivesOn p conv dh ck r
        → Sent p conv dh ck j m e
        → r.recv_n ≤ j
        → j ≤ r.recv_n + r.max_skip
        → j + 1 < u32_mod
        → Decrypts p k e r
    in_chain k j m e r on sent lo hi room =
        let here : is_remote r.dh_remote e.dh_pub ≡ true =
          same_remote r.dh_remote e.dh_pub (on.remote_key ∙ ap some (sym sent.key)) in
        let last : chain_key p (e.n - r.recv_n) (chain_key p r.recv_n ck) ≡ chain_key p j ck =
          chain_key-add p (e.n - r.recv_n) r.recv_n ck
          ∙ ap (λ (n : ℕ). chain_key p n ck) (omega (arith, sent.number)) in
        record {
          old = [];
          step = none;
          start = (chain_key p r.recv_n ck, r.recv_n);
          derived = (
            chain_key p (e.n - r.recv_n) (chain_key p r.recv_n ck),
            message_keys p (e.n - r.recv_n) r.recv_n (chain_key p r.recv_n ck),
          );
          plaintext = m;
          old_eq = rw here refl;
          step_eq = rw here refl;
          start_eq = chain_before-none r _ on.chain;
          derived_eq =
              skip_and_derive_within p r.recv_n e.n r.max_skip _ (omega (arith, sent.number))
                (omega (arith, sent.number));
          opened = rw last sent.opens;
        }

    -- The keys of the messages that a jump to message `e.n` skips.
    abbrev pub jumped : Envelope → RatchetState → List (SkippedId × Bytes)
    jumped e r =
        under_key p e.dh_pub (message_keys p (e.n - r.recv_n) r.recv_n (chain_key p r.recv_n ck))

    pub decrypt_raw_jump :
        (k : Bytes) (j : ℕ) (m : Bytes) (e : Envelope) (r : RatchetState)
        → ReceivesOn p conv dh ck r
        → Sent p conv dh ck j m e
        → r.recv_n ≤ j
        → j ≤ r.recv_n + r.max_skip
        → j + 1 < u32_mod
        → lookup (dh, j) r.skipped ≡ none
        → decrypt_raw p k e r
          ≡ (ok m, committed p e none (kdf_ck p (chain_key p j ck)).0 (jumped e r) r)
    unfolding in_chain committed
    decrypt_raw_jump k j m e r on sent lo hi room miss =
        let d = in_chain k j m e r on sent lo hi room in
        let last : chain_key p (e.n - r.recv_n) (chain_key p r.recv_n ck) ≡ chain_key p j ck =
          chain_key-add p (e.n - r.recv_n) r.recv_n ck
          ∙ ap (λ (n : ℕ). chain_key p n ck) (omega (arith, sent.number)) in
        decrypt_raw_slow k e r (sent.conversation ∙ sym on.conversation)
          (rw (sent.key, sent.number) miss)
        ∙ decrypt_chain_of p k e r d
        ∙ rw last refl

    -- A session that receives on a chain decrypts any message of it, from the next number up to
    -- `max_skip` further, to what was sent, whatever came of those before it, and goes on
    -- receiving behind it. The number has a successor in 32 bits and no key of it is cached.
    pub decrypt_raw_in_window :
        (k : Bytes) (j : ℕ) (m : Bytes) (e : Envelope) (r : RatchetState)
        → ReceivesOn p conv dh ck r
        → Sent p conv dh ck j m e
        → r.recv_n ≤ j
        → j ≤ r.recv_n + r.max_skip
        → j + 1 < u32_mod
        → lookup (dh, j) r.skipped ≡ none
        → (s : RatchetState) × (decrypt_raw p k e r ≡ (ok m, s))
          × ReceivesOn p conv dh ck s
          × (s.recv_n ≡ j + 1)
    decrypt_raw_in_window k j m e r on sent lo hi room miss =
        let stands =
          committed-ReceivesOn conv dh ck j e none (jumped e r) r on.conversation
            (ap (λ (s : RatchetState). s.dh_remote) (commit_step-none e.dh_pub r) ∙ on.remote_key)
            sent.number room in
        (
          committed p e none (kdf_ck p (chain_key p j ck)).0 (jumped e r) r,
          decrypt_raw_jump k j m e r on sent lo hi room miss,
          stands.0,
          stands.1,
        )
