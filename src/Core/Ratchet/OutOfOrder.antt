-- ===== src/Core/Ratchet/OutOfOrder.antt =====
-- Messages that were skipped: their keys are kept, and a late message decrypts with its key once.
use dratchet.Base.{
  ℕ, zero, suc, ◌+◌, ◌*◌, ◌-◌, ◌≤◌, ◌<◌, ◌≡◌, refl, sym, ap, ◌∙◌, true, false, none, some, Bytes,
  bytes_eq, nat_eq, pair_eq, Eq, ltb, ok, arith, lookup, Map, ◌++◌, insert, remove, length, ◌==◌,
  [], ◌∷◌, List, lookup-insert, lookup-remove_self, length-insert, if◌then◌else◌, Bool-cases, inl,
  inr,
}
use native.Mathlib.Nat.{add-zero}
use dratchet.Core.Words.{u32_mod}
use dratchet.Core.Envelope.{Envelope}
use dratchet.Core.Ratchet.Keys.{Primitives, kdf_ck}
use dratchet.Core.Ratchet.Chain.{chain_key, message_key, message_keys, chain_key-add}
use dratchet.Core.Ratchet.State.{
  RatchetState, SkippedId, stage_skipped, evict_loop, evict_oldest_skipped_beyond_lifetime_bound,
  skipped_cache_lifetime_multiplier, is_remote, record_content_delivered,
}
use dratchet.Core.Ratchet.Engine.{decrypt_raw, decrypt_cached, under_key, commit_step, commit_chain}
use dratchet.Core.Ratchet.Outcome.{committed}
use dratchet.Core.Ratchet.Agreement.{ReceivesOn, Sent}
use dratchet.Core.Ratchet.Delivery.{
  jumped, decrypt_raw_jump, committed-ReceivesOn, commit_step-none,
}

abbrev id_eq : Eq SkippedId
id_eq = pair_eq

other_number : (dh : Bytes) (i n : ℕ) → i < n → id_eq.beq (dh, n) (dh, i) ≡ false
other_number dh i n h = ground (arith, bytes_eq.decides dh dh)

same_number : (dh : Bytes) (i : ℕ) → id_eq.beq (dh, i) (dh, i) ≡ true
same_number dh i = (id_eq.decides (dh, i) (dh, i)).1 refl

module _ (p : Primitives) (dh : Bytes) where
  -- Staging keys from `n` on leaves the keys of earlier numbers alone.
  staged_before :
      (rounds n i : ℕ) (ck : Bytes) (s : RatchetState)
      → i < n
      → lookup (dh, i) (stage_skipped (under_key p dh (message_keys p rounds n ck)) s).skipped
        ≡ lookup (dh, i) s.skipped
  unfolding stage_skipped message_keys
  staged_before zero n i ck s h = refl
  staged_before (suc rounds) n i ck s h =
      staged_before rounds (n + 1) i _ _ (omega arith)
      ∙ lookup-insert (dh, i) (dh, n) _ s.skipped
      ∙ rw (other_number dh i n h) refl

  -- Staging files the key of every skipped number under that number.
  staged :
      (rounds n i : ℕ) (ck : Bytes) (s : RatchetState)
      → i < rounds
      → lookup (dh, n + i) (stage_skipped (under_key p dh (message_keys p rounds n ck)) s).skipped
        ≡ some (message_key p i ck)
  unfolding stage_skipped message_keys chain_key
  staged zero n i ck s h = absurd (omega arith)
  staged (suc rounds) n zero ck s h = rw add-zero (
      staged_before rounds (n + 1) n _ _ (omega arith)
      ∙ lookup-insert (dh, n) (dh, n) _ s.skipped
      ∙ rw (same_number dh n) refl)
  staged (suc rounds) n (suc i) ck s h =
      let next : n + suc i ≡ n + 1 + i = omega arith in
      rw next (staged rounds (n + 1) i (kdf_ck p ck).0 _ (omega arith))

  length-staged :
      (rounds n : ℕ) (ck : Bytes) (s : RatchetState)
      → length (stage_skipped (under_key p dh (message_keys p rounds n ck)) s).skipped
        ≤ length s.skipped + rounds
  unfolding stage_skipped message_keys
  length-staged zero n ck s = omega arith
  length-staged (suc rounds) n ck s =
      let s' = record s {
        skipped = insert (dh, n) (kdf_ck p ck).1 s.skipped;
        skipped_order = s.skipped_order ++ (dh, n) ∷ [];
      } in
      omega (
        arith,
        length-staged rounds (n + 1) (kdf_ck p ck).0 s',
        length-insert (dh, n) (kdf_ck p ck).1 s.skipped,
      )

  staged-max_skip :
      (rounds n : ℕ) (ck : Bytes) (s : RatchetState)
      → (stage_skipped (under_key p dh (message_keys p rounds n ck)) s).max_skip ≡ s.max_skip
  unfolding stage_skipped message_keys
  staged-max_skip zero n ck s = refl
  staged-max_skip (suc rounds) n ck s = staged-max_skip rounds (n + 1) (kdf_ck p ck).0 _

loop_within :
    (cap : ℕ) (m : Map SkippedId Bytes) (order : List SkippedId)
    → length m ≤ cap
    → (evict_loop cap m order).0 ≡ m
unfolding evict_loop
loop_within cap m [] h = refl
loop_within cap m (id ∷ order) h =
    let fits : ltb cap (length m) ≡ false = ground arith in rw fits refl

-- A cache within its cap is left alone.
evict_within :
    (s : RatchetState)
    → length s.skipped ≤ s.max_skip * skipped_cache_lifetime_multiplier
    → (evict_oldest_skipped_beyond_lifetime_bound s).skipped ≡ s.skipped
unfolding evict_oldest_skipped_beyond_lifetime_bound
evict_within s h = loop_within _ s.skipped s.skipped_order h

-- The session after a cache hit.
abbrev hit_state : Envelope → RatchetState → RatchetState
hit_state e s =
    let s' = record s { skipped = remove (e.dh_pub, e.n) s.skipped } in
    if is_remote s.dh_remote e.dh_pub then record_content_delivered e.n s' else s'

hit_state-lookup :
    (e : Envelope) (s : RatchetState) → lookup (e.dh_pub, e.n) (hit_state e s).skipped ≡ none
unfolding record_content_delivered
hit_state-lookup e s = elim (Bool-cases (is_remote s.dh_remote e.dh_pub)) [
  | inl here ↦ rw here (lookup-remove_self (e.dh_pub, e.n) s.skipped)
  | inr elsewhere ↦ rw elsewhere (lookup-remove_self (e.dh_pub, e.n) s.skipped)
]

module _ (p : Primitives) (conv dh ck : Bytes) where
  -- A late message whose key is cached decrypts to what was sent, and its key is gone afterwards.
  pub decrypt_raw_late :
      (k : Bytes) (i : ℕ) (m : Bytes) (e : Envelope) (s : RatchetState)
      → s.conversation_id ≡ conv
      → Sent p conv dh ck i m e
      → lookup (dh, i) s.skipped ≡ some (message_key p i ck)
      → (s' : RatchetState) × (decrypt_raw p k e s ≡ (ok m, s'))
        × (lookup (dh, i) s'.skipped ≡ none)
  unfolding decrypt_raw decrypt_cached
  decrypt_raw_late k i m e s same sent hit =
      let t : (e.conversation_id == s.conversation_id) ≡ true =
        (bytes_eq.decides _ _).1 (sent.conversation ∙ sym same) in
      let found : lookup (e.dh_pub, e.n) s.skipped ≡ some (message_key p i ck) =
        rw (sent.key, sent.number) hit in
      (
        hit_state e s,
        rw (t, decrypt_raw) (rw (found, decrypt_raw) (rw (sent.opens, decrypt_cached) refl)),
        rw (← sent.key, ← sent.number) (hit_state-lookup e s),
      )

  jumped_key :
      (i j : ℕ) (e : Envelope) (final : Bytes) (r : RatchetState)
      → e.dh_pub ≡ dh
      → e.n ≡ j
      → r.recv_n ≤ i
      → i < j
      → length r.skipped + (j - r.recv_n) ≤ r.max_skip * skipped_cache_lifetime_multiplier
      → lookup (dh, i) (committed p e none final (jumped p conv dh ck e r) r).skipped
        ≡ some (message_key p i ck)
  unfolding committed record_content_delivered commit_step commit_chain
  jumped_key i j e final r key number lo late room =
      let base = commit_chain p final e.n r in
      let rounds = e.n - r.recv_n in
      let start = chain_key p r.recv_n ck in
      let full = stage_skipped (jumped p conv dh ck e r) base in
      let size = length-staged p e.dh_pub rounds r.recv_n start base in
      let limit = staged-max_skip p e.dh_pub rounds r.recv_n start base in
      let kept = evict_within full (omega (arith, size, limit, number, room)) in
      let index : r.recv_n + (i - r.recv_n) ≡ i = omega arith in
      let filed =
        staged p e.dh_pub rounds r.recv_n (i - r.recv_n) start base (omega (arith, number)) in
      let at_key : lookup (dh, i) full.skipped
          ≡ lookup (e.dh_pub, r.recv_n + (i - r.recv_n)) full.skipped =
        λ u. lookup (sym key u, sym index u) full.skipped in
      rw kept (
        at_key
        ∙ filed
        ∙ ap (λ (c : Bytes). some (kdf_ck p c).1)
            (chain_key-add p (i - r.recv_n) r.recv_n ck ∙ ap (λ (n : ℕ). chain_key p n ck) index))

  -- Out of order: a session that receives on a chain decrypts message `j` within the skip limit
  -- and then an earlier message `i`, that it skipped, each to what was sent, and the key of `i` is
  -- gone afterwards. The cache has room for the skipped keys, no key of `j` is cached, and `j` has
  -- a successor in 32 bits.
  pub decrypt_raw_out_of_order :
      (k k' : Bytes) (i j : ℕ) (m m' : Bytes) (e e' : Envelope) (r : RatchetState)
      → ReceivesOn p conv dh ck r
      → Sent p conv dh ck j m e
      → Sent p conv dh ck i m' e'
      → r.recv_n ≤ i
      → i < j
      → j ≤ r.recv_n + r.max_skip
      → j + 1 < u32_mod
      → lookup (dh, j) r.skipped ≡ none
      → length r.skipped + (j - r.recv_n) ≤ r.max_skip * skipped_cache_lifetime_multiplier
      → (s s' : RatchetState) × (decrypt_raw p k e r ≡ (ok m, s))
        × (decrypt_raw p k' e' s ≡ (ok m', s'))
        × (lookup (dh, i) s'.skipped ≡ none)
  decrypt_raw_out_of_order k k' i j m m' e e' r on sent sent' lo late hi room miss space =
      let final = (kdf_ck p (chain_key p j ck)).0 in
      let s = committed p e none final (jumped p conv dh ck e r) r in
      let stands =
        committed-ReceivesOn p conv dh ck j e none (jumped p conv dh ck e r) r on.conversation
          (ap (λ (t : RatchetState). t.dh_remote) (commit_step-none p e.dh_pub r) ∙ on.remote_key)
          sent.number room in
      let (s', second, gone) =
        decrypt_raw_late k' i m' e' s stands.0.conversation sent'
          (jumped_key i j e final r sent.key sent.number lo late space) in
      (
        s,
        s',
        decrypt_raw_jump p conv dh ck k j m e r on sent (omega arith) hi room miss,
        second,
        gone,
      )
