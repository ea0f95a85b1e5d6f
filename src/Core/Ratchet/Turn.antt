-- ===== src/Core/Ratchet/Turn.antt =====
-- Turns of the conversation: the DH ratchet step of the receiver meets the chain of the sender.
use dratchet.Base.{
  ℕ, ◌+◌, ◌-◌, ◌≤◌, ◌<◌, ◌≡◌, refl, true, false, some, Bytes, bytes_eq, nat_eq, pair_eq, ok, arith,
  List,
}
use dratchet.Core.Words.{u32_mod}
use dratchet.Core.Envelope.{Envelope}
use dratchet.Core.Ratchet.Keys.{Primitives, RatchetStep, kdf_rk, compute_dh_ratchet_step}
use dratchet.Core.Ratchet.Chain.{chain_key, message_keys, skip_and_derive_within}
use dratchet.Core.Ratchet.State.{RatchetState, SkippedId, is_remote}
use dratchet.Core.Ratchet.Engine.{chain_before, skip_old_chain, ratchet_step}
use dratchet.Core.Ratchet.Outcome.{Decrypts}
use dratchet.Core.Ratchet.Agreement.{Sent}

module _ (p : Primitives) where
  -- The step that a session takes on a new remote key `dh`, with the fresh secret `k`.
  abbrev pub dh_step : Bytes → Bytes → Bytes → Bytes → RatchetStep p
  dh_step k root secret dh =
      let received = kdf_rk p root (p.diffie_hellman secret dh) in
      let sent = kdf_rk p received.0 (p.diffie_hellman k dh) in
      record {
        new_root_key = sent.0;
        new_receiving_chain_key = received.1;
        new_sending_chain_key = sent.1;
        new_dh_self_secret = k;
        new_dh_self_public = p.public_key k;
      }

  pub compute_dh_ratchet_step_ok :
      (k root secret dh : Bytes)
      → p.was_contributory (p.diffie_hellman secret dh) ≡ true
      → p.was_contributory (p.diffie_hellman k dh) ≡ true
      → compute_dh_ratchet_step p k root secret dh ≡ ok (dh_step k root secret dh)
  unfolding compute_dh_ratchet_step
  compute_dh_ratchet_step_ok k root secret dh c c' = rw (c, c') refl

  pub ratchet_step_ok :
      (k secret dh : Bytes) (own : Bytes) (r : RatchetState) (e : Envelope)
      → r.dh_self ≡ some (secret, own)
      → e.dh_pub ≡ dh
      → p.was_contributory (p.diffie_hellman secret dh) ≡ true
      → p.was_contributory (p.diffie_hellman k dh) ≡ true
      → ratchet_step p k r e ≡ ok (dh_step k r.root_key secret dh)
  unfolding ratchet_step
  ratchet_step_ok k secret dh own r e h key c c' =
      rw (h, ratchet_step) (rw key (compute_dh_ratchet_step_ok k r.root_key secret dh c c'))

  pub chain_before-some :
      (r : RatchetState) (step : RatchetStep p)
      → chain_before p r (some step) ≡ ok (step.new_receiving_chain_key, 0)
  unfolding chain_before
  chain_before-some r step = refl

  module _ (conv k secret own dh : Bytes) (old : List (SkippedId × Bytes)) where
    unfoldable pub new_chain :
        (j : ℕ) (m : Bytes) (e : Envelope) (r : RatchetState)
        → r.dh_self ≡ some (secret, own)
        → is_remote r.dh_remote dh ≡ false
        → skip_old_chain p r e ≡ ok old
        → p.was_contributory (p.diffie_hellman secret dh) ≡ true
        → p.was_contributory (p.diffie_hellman k dh) ≡ true
        → Sent p conv dh (dh_step k r.root_key secret dh).new_receiving_chain_key j m e
        → j ≤ r.max_skip
        → j + 1 < u32_mod
        → Decrypts p k e r
    new_chain j m e r own_key other old_ok c c' sent hi room =
        let step = dh_step k r.root_key secret dh in
        let elsewhere : is_remote r.dh_remote e.dh_pub ≡ false = rw sent.key other in
        let steps = ratchet_step_ok k secret dh own r e own_key sent.key c c' in
        let same : e.n - 0 ≡ j = omega (arith, sent.number) in
        record {
          old = old;
          step = some step;
          start = (step.new_receiving_chain_key, 0);
          derived = (
            chain_key p (e.n - 0) step.new_receiving_chain_key,
            message_keys p (e.n - 0) 0 step.new_receiving_chain_key,
          );
          plaintext = m;
          old_eq = rw elsewhere old_ok;
          step_eq = rw elsewhere (rw steps refl);
          start_eq = chain_before-some r step;
          derived_eq =
              skip_and_derive_within p 0 e.n r.max_skip _ (omega (arith, sent.number))
                (omega (arith, sent.number));
          opened = rw same sent.opens;
        }
