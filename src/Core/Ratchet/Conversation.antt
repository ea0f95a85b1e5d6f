-- ===== src/Core/Ratchet/Conversation.antt =====
-- A conversation through its turns: the two sessions stay in step from the handshake on, over any
-- number of DH ratchet steps.
use dratchet.Base.{
  ℕ, ◌+◌, ◌-◌, ◌≤◌, ◌<◌, ◌≡◌, refl, sym, ap, ◌∙◌, true, false, none, some, Bytes, bytes_eq, nat_eq,
  pair_eq, ok, arith, lookup, List, ◌++◌,
}
use dratchet.Core.Errors.{CoreResult}
use dratchet.Core.Words.{u32_mod}
use dratchet.Core.Envelope.{Envelope}
use dratchet.Core.Ratchet.Keys.{Primitives, kdf_ck, kdf_rk}
use dratchet.Core.Ratchet.Chain.{chain_key, message_keys}
use dratchet.Core.Ratchet.State.{
  RatchetState, SkippedId, is_remote, init_as_initiator, init_as_responder,
}
use dratchet.Core.Ratchet.Engine.{
  encrypt, decrypt_raw, under_key, commit_step, commit_chain, skip_old_chain,
}
use dratchet.Core.Ratchet.Outcome.{committed, decrypt_chain_of, committed-Same}
use dratchet.Core.Ratchet.Agreement.{
  AeadOpens, ReceivesOn, SendsOn, Sent, encrypt-Sent, encrypt_inverse,
}
use dratchet.Core.Ratchet.Delivery.{decrypt_raw_slow, committed-ReceivesOn}
use dratchet.Core.Ratchet.Turn.{dh_step, new_chain}

-- The documented behaviour of X25519: both sides compute the same secret.
abbrev pub DhAgrees : Primitives → Type 0
DhAgrees p =
    (a b : Bytes) → p.diffie_hellman a (p.public_key b) ≡ p.diffie_hellman b (p.public_key a)

module _ (p : Primitives) where
  -- Session `s` has taken its DH step against the key of `r`, and `r` has not yet seen it: the
  -- secrets `a` of `s` and `b` of `r`, and the root key of `s` ahead of that of `r` by that step.
  pub record Ahead (a b ck : Bytes) (s r : RatchetState) : Type 0 where
    pub own : s.dh_self ≡ some (a, p.public_key a)
    pub peer : s.dh_remote ≡ some (p.public_key b)
    pub peer_own : r.dh_self ≡ some (b, p.public_key b)
    pub same : r.conversation_id ≡ s.conversation_id
    pub step : kdf_rk p r.root_key (p.diffie_hellman b (p.public_key a)) ≡ (s.root_key, ck)
    pub chain : s.sending_chain_key ≡ some (chain_key p s.send_n ck)

  -- Where both constructors succeed on one root key and X25519 agrees, the initiator is ahead of
  -- the responder.
  pub init-Ahead :
      (a b conv root : Bytes) (max max' : ℕ) (s r : RatchetState)
      → DhAgrees p
      → init_as_initiator p a conv root (p.public_key b) max ≡ ok s
      → init_as_responder p conv root b max' ≡ ok r
      → (ck : Bytes) × Ahead a b ck s r
  unfolding init_as_initiator init_as_responder chain_key
  init-Ahead a b conv root max max' s r agrees hs hr =
      let step = kdf_rk p root (p.diffie_hellman a (p.public_key b)) in
      let root_r : r.root_key ≡ root = ground (arith, hr) in
      let root_s : s.root_key ≡ step.0 = ground (arith, hs) in
      let sending : s.sending_chain_key ≡ some step.1 = ground (arith, hs) in
      let start : s.send_n ≡ 0 = ground (arith, hs) in
      let ahead : step ≡ (s.root_key, step.1) = λ i. (sym root_s i, step.1) in
      (
        step.1,
        record {
          own = ground (arith, hs);
          peer = ground (arith, hs);
          peer_own = ground (arith, hr);
          same = ground (arith, hs, hr);
          step = rw (root_r, agrees b a) ahead;
          chain = sending ∙ ap (λ (n : ℕ). some (chain_key p n step.1)) (sym start);
        },
      )

  -- Sending keeps the sender ahead.
  pub encrypt-Ahead :
      (a b ck m : Bytes) (s s' r : RatchetState) (e : Envelope)
      → AeadOpens p
      → Ahead a b ck s r
      → s.send_n + 1 < u32_mod
      → encrypt p m s ≡ (ok e, s')
      → Sent p r.conversation_id (p.public_key a) ck s.send_n m e × Ahead a b ck s' r
  encrypt-Ahead a b ck m s s' r e law h room sent =
      let sends : SendsOn p r.conversation_id (p.public_key a) ck s = record {
        conversation = sym h.same;
        secret = a;
        own_key = h.own;
        chain = h.chain;
      } in
      let (carried, sends', _) =
        encrypt-Sent p r.conversation_id (p.public_key a) ck m s s' e law sends room sent in
      let (_, _, _, kept) = encrypt_inverse p m a (p.public_key a) _ s s' e h.own h.chain sent in
      (
        carried,
        record {
          own = rw kept h.own;
          peer = rw kept h.peer;
          peer_own = h.peer_own;
          same = sym sends'.conversation;
          step = rw kept h.step;
          chain = sends'.chain;
        },
      )

  -- The turn: where `s` is ahead of `r`, `r` decrypts a message of the chain of `s` within the
  -- skip limit, and is then the one that is ahead, with its fresh secret `k`, and receives on that
  -- chain. The key of `s` is new to `r`, the rest of its old chain is within the limit, both
  -- shared secrets are contributory, the number has a successor in 32 bits and no key of it is
  -- cached; X25519 agrees.
  pub turn-Ahead :
      (a b ck k : Bytes) (j : ℕ) (m : Bytes) (e : Envelope) (s r : RatchetState)
      (old : List (SkippedId × Bytes))
      → DhAgrees p
      → Ahead a b ck s r
      → Sent p r.conversation_id (p.public_key a) ck j m e
      → is_remote r.dh_remote (p.public_key a) ≡ false
      → skip_old_chain p r e ≡ ok old
      → p.was_contributory (p.diffie_hellman b (p.public_key a)) ≡ true
      → p.was_contributory (p.diffie_hellman k (p.public_key a)) ≡ true
      → j ≤ r.max_skip
      → j + 1 < u32_mod
      → lookup (p.public_key a, j) r.skipped ≡ none
      → (r' : RatchetState) × (ck' : Bytes) × (decrypt_raw p k e r ≡ (ok m, r'))
        × Ahead k a ck' r' s
        × ReceivesOn p r.conversation_id (p.public_key a) ck r'
        × (r'.recv_n ≡ j + 1)
  unfolding new_chain commit_step commit_chain chain_key
  turn-Ahead a b ck k j m e s r old agrees h sent other old_ok c c' hi room miss =
      let stp = dh_step p k r.root_key b (p.public_key a) in
      let recv_key : stp.new_receiving_chain_key ≡ ck = ap (λ (t : Bytes × Bytes). t.1) h.step in
      let sent' : Sent p r.conversation_id (p.public_key a) stp.new_receiving_chain_key j m e =
        rw recv_key sent in
      let d =
        new_chain p r.conversation_id k b (p.public_key b) (p.public_key a) old j m e r h.peer_own
          other old_ok c c' sent' hi room in
      let keys =
        old ++ under_key p e.dh_pub (message_keys p (e.n - 0) 0 stp.new_receiving_chain_key) in
      let same : e.n - 0 ≡ j = omega (arith, sent.number) in
      let last : chain_key p (e.n - 0) stp.new_receiving_chain_key ≡ chain_key p j ck =
        rw (same, recv_key) refl in
      let final = (kdf_ck p (chain_key p j ck)).0 in
      let r' = committed p e (some stp) final keys r in
      let kept = committed-Same p e (some stp) final keys r in
      let stands =
        committed-ReceivesOn p r.conversation_id (p.public_key a) ck j e (some stp) keys r refl
          (ap some sent.key) sent.number room in
      let sender_root : s.root_key ≡ (kdf_rk p r.root_key (p.diffie_hellman b (p.public_key a))).0 =
        ap (λ (t : Bytes × Bytes). t.0) (sym h.step) in
      let next =
        kdf_rk p (kdf_rk p r.root_key (p.diffie_hellman b (p.public_key a))).0
          (p.diffie_hellman k (p.public_key a)) in
      let root : next ≡ (r'.root_key, next.1) = λ i. (sym kept.4 i, next.1) in
      (
        r',
        stp.new_sending_chain_key,
        decrypt_raw_slow p k e r sent.conversation (rw (sent.key, sent.number) miss)
            ∙ decrypt_chain_of p k e r d
            ∙ ap {B = CoreResult Bytes × RatchetState}
                (λ (c : Bytes). (ok m, committed p e (some stp) (kdf_ck p c).0 keys r)) last,
        record {
          own = kept.5;
          peer = kept.1 ∙ ap some sent.key;
          peer_own = h.own;
          same = sym h.same ∙ sym kept.0;
          step = rw (sender_root, agrees a k) root;
          chain =
              kept.6 ∙ ap (λ (n : ℕ). some (chain_key p n stp.new_sending_chain_key)) (sym kept.7);
        },
        stands.0,
        stands.1,
      )
