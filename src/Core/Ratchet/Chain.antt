-- ===== src/Core/Ratchet/Chain.antt =====
-- A symmetric chain: the key of each message, and the keys that skipping derives.
use dratchet.Base.{
  ℕ, zero, suc, ◌+◌, ◌-◌, ◌≤◌, ◌<◌, ◌≡◌, refl, true, false, List, [], ◌∷◌, Bytes, ltb, ok, err,
  arith, length, ap,
}
use native.Mathlib.Nat.{zero-add, suc-add}
use dratchet.Core.Errors.{max_skip_exceeded}
use dratchet.Core.Words.{u32_mod, saturating_add}
use dratchet.Core.Ratchet.Keys.{Primitives, kdf_ck, derive_keys, skip_and_derive}

in_window :
    (from max until : ℕ)
    → until ≤ from + max
    → until < u32_mod
    → ltb (saturating_add from max) until ≡ false
in_window from max until h u = ground arith

past_window : (from max until : ℕ) → from + max < until → ltb (saturating_add from max) until ≡ true
past_window from max until h = ground arith

pair_path {ℓ κ} :
    {A : Type ℓ} {B : Type κ} {t : A × B} {a : A} {b : B} → t.0 ≡ a → t.1 ≡ b → t ≡ (a, b)
pair_path h k = λ i. (h i, k i)

module _ (p : Primitives) where
  -- The chain key in front of message `n` of the chain that starts at `ck`.
  unfoldable pub chain_key : ℕ → Bytes → Bytes
  chain_key zero ck = ck
  chain_key (suc n) ck = chain_key n (kdf_ck p ck).0

  -- The key of message `n`.
  abbrev pub message_key : ℕ → Bytes → Bytes
  message_key n ck = (kdf_ck p (chain_key n ck)).1

  pub chain_key-next : (n : ℕ) (ck : Bytes) → (kdf_ck p (chain_key n ck)).0 ≡ chain_key (suc n) ck
  unfolding chain_key
  chain_key-next zero ck = refl
  chain_key-next (suc n) ck = chain_key-next n (kdf_ck p ck).0

  pub chain_key-add : (m n : ℕ) (ck : Bytes) → chain_key m (chain_key n ck) ≡ chain_key (n + m) ck
  unfolding chain_key
  chain_key-add m zero ck = rw zero-add refl
  chain_key-add m (suc n) ck = rw suc-add (chain_key-add m n (kdf_ck p ck).0)

  pub derive_keys-last :
      (rounds n : ℕ) (ck : Bytes) → (derive_keys p rounds n ck).0 ≡ chain_key rounds ck
  unfolding derive_keys chain_key
  derive_keys-last zero n ck = refl
  derive_keys-last (suc rounds) n ck = derive_keys-last rounds (n + 1) (kdf_ck p ck).0

  -- The numbers and keys of the messages from `n` on, the first `rounds` of them.
  unfoldable pub message_keys : ℕ → ℕ → Bytes → List (ℕ × Bytes)
  message_keys zero n ck = []
  message_keys (suc rounds) n ck =
      (n, (kdf_ck p ck).1) ∷ message_keys rounds (n + 1) (kdf_ck p ck).0

  pub derive_keys-keys :
      (rounds n : ℕ) (ck : Bytes) → (derive_keys p rounds n ck).1 ≡ message_keys rounds n ck
  unfolding derive_keys message_keys
  derive_keys-keys zero n ck = refl
  derive_keys-keys (suc rounds) n ck =
      ap (◌∷◌ (n, (kdf_ck p ck).1)) (derive_keys-keys rounds (n + 1) (kdf_ck p ck).0)

  pub length-message_keys : (rounds n : ℕ) (ck : Bytes) → length (message_keys rounds n ck) ≡ rounds
  unfolding message_keys
  length-message_keys zero n ck = refl
  length-message_keys (suc rounds) n ck =
      ap suc (length-message_keys rounds (n + 1) (kdf_ck p ck).0)

  -- Skipping within the limit, to a 32-bit number, gives exactly the keys from `from` up to
  -- `until`, in order, and the chain key in front of `until`.
  pub skip_and_derive_within :
      (from until max_skip : ℕ) (ck : Bytes)
      → until ≤ from + max_skip
      → until < u32_mod
      → skip_and_derive p from ck until max_skip
        ≡ ok (chain_key (until - from) ck, message_keys (until - from) from ck)
  unfolding skip_and_derive
  skip_and_derive_within from until max_skip ck h u =
      let fits : ltb (saturating_add from max_skip) until ≡ false =
        in_window from max_skip until h u in
      rw fits (ap ok (pair_path (derive_keys-last _ from ck) (derive_keys-keys _ from ck)))

  -- Where `until` is further than the limit from `from`, nothing is derived: the call fails.
  pub skip_and_derive_beyond :
      (from until max_skip : ℕ) (ck : Bytes)
      → from + max_skip < until
      → skip_and_derive p from ck until max_skip ≡ err (max_skip_exceeded max_skip)
  unfolding skip_and_derive
  skip_and_derive_beyond from until max_skip ck h =
      let over : ltb (saturating_add from max_skip) until ≡ true =
        past_window from max_skip until h in
      rw over refl
