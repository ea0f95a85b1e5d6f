-- ===== src/Core/Ratchet/Agreement.antt =====
-- Two sessions that share a chain: what one encrypts the other decrypts, in order or not.
use dratchet.Base.{
  ℕ, suc, ◌+◌, ◌<◌, ◌≡◌, refl, ap, some, Bytes, bytes_eq, nat_eq, pair_eq, ok, arith, length, inl,
  inr, length-replicate, replicate, Result-cases,
}
use dratchet.Core.Words.{u32_mod}
use dratchet.Core.Envelope.{Envelope, header_bytes, current_version}
use dratchet.Core.Ratchet.Keys.{
  Primitives, kdf_ck, aead_encrypt, aead_decrypt, derive_message_cipher,
}
use dratchet.Core.Ratchet.Tracker.{wrapping_succ}
use dratchet.Core.Ratchet.Chain.{chain_key, message_key, chain_key-next}
use dratchet.Core.Ratchet.State.{RatchetState}
use dratchet.Core.Ratchet.Engine.{encrypt}

-- The documented behaviour of the AEAD: what is sealed opens under the same key, nonce and
-- associated data, and the ciphertext is longer than the message by the tag.
abbrev pub AeadOpens : Primitives → Type 0
AeadOpens p =
    (key nonce aad m c : Bytes)
    → p.seal key nonce aad m ≡ some c
    → (p.unseal key nonce aad c ≡ some m) × (length c ≡ length m + 16)

module _ (p : Primitives) where
  -- A session that sends on the chain that began at `ck` with the public key `dh`.
  pub record SendsOn (conv dh ck : Bytes) (s : RatchetState) : Type 0 where
    pub conversation : s.conversation_id ≡ conv
    pub secret : Bytes
    pub own_key : s.dh_self ≡ some (secret, dh)
    pub chain : s.sending_chain_key ≡ some (chain_key p s.send_n ck)

  -- A session that receives on that chain.
  pub record ReceivesOn (conv dh ck : Bytes) (s : RatchetState) : Type 0 where
    pub conversation : s.conversation_id ≡ conv
    pub remote_key : s.dh_remote ≡ some dh
    pub chain : s.receiving_chain_key ≡ some (chain_key p s.recv_n ck)

  -- Envelope `e` carries message number `j` of that chain, `m`.
  pub record Sent (conv dh ck : Bytes) (j : ℕ) (m : Bytes) (e : Envelope) : Type 0 where
    pub conversation : e.conversation_id ≡ conv
    pub key : e.dh_pub ≡ dh
    pub number : e.n ≡ j
    pub opens : aead_decrypt p (message_key p j ck) (header_bytes e) e.ciphertext ≡ ok m

  -- The header, and so the associated data, depends on the ciphertext by its length alone.
  header_bytes-length :
      (e : Envelope) (c : Bytes)
      → length e.ciphertext ≡ length c
      → header_bytes (record e { ciphertext = c }) ≡ header_bytes e
  unfolding header_bytes
  header_bytes-length e c h = rw h refl

  aead_decrypt-aead_encrypt :
      (mk aad m c : Bytes)
      → AeadOpens p
      → aead_encrypt p mk aad m ≡ ok c
      → (aead_decrypt p mk aad c ≡ ok m) × (length c ≡ length m + 16)
  unfolding aead_encrypt aead_decrypt
  aead_decrypt-aead_encrypt mk aad m c law h =
      let cipher = derive_message_cipher p mk in ground (arith, law cipher.0 cipher.1 aad m c)

  -- The header that `encrypt` authenticates, before the ciphertext is there.
  abbrev pub header_for : RatchetState → Bytes → Bytes → Envelope
  header_for s dh m = record {
    version = current_version;
    conversation_id = s.conversation_id;
    dh_pub = dh;
    pn = s.prev_chain_len;
    n = s.send_n;
    ciphertext = replicate (length m + 16) 0;
  }

  pub encrypt_inverse :
      (m secret dh ck : Bytes) (s s' : RatchetState) (e : Envelope)
      → s.dh_self ≡ some (secret, dh)
      → s.sending_chain_key ≡ some ck
      → encrypt p m s ≡ (ok e, s')
      → (c : Bytes) × (aead_encrypt p (kdf_ck p ck).1 (header_bytes (header_for s dh m)) m ≡ ok c)
        × (e ≡ record (header_for s dh m) { ciphertext = c })
        × (s' ≡ record s {
          sending_chain_key = some (kdf_ck p ck).0;
          send_n = wrapping_succ s.send_n;
        })
  unfolding encrypt
  encrypt_inverse m secret dh ck s s' e hd hk h =
      elim (Result-cases (aead_encrypt p (kdf_ck p ck).1 (header_bytes (header_for s dh m)) m)) [
        | inl (c, hc) ↦ (c, hc, ground (arith, hd, hk, hc, h), ground (arith, hd, hk, hc, h))
        | inr (x, hx) ↦ absurd (ground (arith, hd, hk, hx, h))
      ]

  -- An encryption that succeeds sends the message under the next number of the chain, and the
  -- session goes on sending on it.
  pub encrypt-Sent :
      (conv dh ck m : Bytes) (s s' : RatchetState) (e : Envelope)
      → AeadOpens p
      → SendsOn conv dh ck s
      → s.send_n + 1 < u32_mod
      → encrypt p m s ≡ (ok e, s')
      → Sent conv dh ck s.send_n m e × SendsOn conv dh ck s' × (s'.send_n ≡ s.send_n + 1)
  encrypt-Sent conv dh ck m s s' e law sends room h =
      let (c, hc, he, hs) =
        encrypt_inverse m sends.secret dh _ s s' e sends.own_key sends.chain h in
      let header = header_for s dh m in
      let (opened, size) = aead_decrypt-aead_encrypt _ _ m c law hc in
      let aad : header_bytes (record header { ciphertext = c }) ≡ header_bytes header =
        header_bytes-length header c
          (omega (arith, size, length-replicate {A = ℕ} (length m + 16) 0)) in
      let succ : wrapping_succ s.send_n ≡ suc s.send_n = omega arith in
      (
        rw he (record {
          conversation = sends.conversation;
          key = refl;
          number = refl;
          opens = rw aad opened;
        }),
        rw hs (record {
          conversation = sends.conversation;
          secret = sends.secret;
          own_key = sends.own_key;
          chain = rw succ (ap some (chain_key-next p s.send_n ck));
        }),
        rw hs (omega arith),
      )
