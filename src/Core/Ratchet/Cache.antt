-- ===== src/Core/Ratchet/Cache.antt =====
-- The cache of skipped message keys: every key in it can be evicted, and it never outgrows its cap.
use dratchet.Base.{
  ℕ, ◌*◌, ◌≤◌, ◌≡◌, refl, Bool, true, false, Option, none, some, List, [], ◌∷◌, ◌++◌, Bytes,
  bytes_eq, nat_eq, pair_eq, Eq, arith, lookup, insert, remove, Map, length, elem, elem-append,
  Option-cases, inl, inr, sym, Bool-cases, Result-cases, ◌==◌, ltb, if◌then◌else◌,
}
use dratchet.Core.Envelope.{Envelope, header_bytes}
use dratchet.Core.Ratchet.Keys.{Primitives, RatchetStep, aead_decrypt}
use dratchet.Core.Ratchet.State.{
  RatchetState, SkippedId, is_remote, record_content_delivered, evict_loop, stage_skipped,
  evict_oldest_skipped_beyond_lifetime_bound, min_max_skip, max_max_skip,
  skipped_cache_lifetime_multiplier,
}
use dratchet.Core.Ratchet.Outcome.{committed, decrypt_chain_cases}
use dratchet.Core.Ratchet.Engine.{
  decrypt_cached, decrypt_chain, decrypt_raw, encrypt, commit_step, commit_chain,
}

-- Every id of the map stands in the list.
abbrev pub Covered : Map SkippedId Bytes → List SkippedId → Type 0
Covered [] order = Unit {0}
Covered ((id, _) ∷ m) order = (elem id order ≡ true) × Covered m order

Covered-more :
    (m : Map SkippedId Bytes) (order more : List SkippedId)
    → Covered m order
    → Covered m (order ++ more)
Covered-more [] order more h = tt
Covered-more ((id, _) ∷ m) order more h =
    (rw (elem-append id order more, h.0) refl, Covered-more m order more h.1)

insert-Covered :
    (id : SkippedId) (key : Bytes) (m : Map SkippedId Bytes) (order : List SkippedId)
    → Covered m order
    → elem id order ≡ true
    → Covered (insert id key m) order
unfolding insert
insert-Covered id key [] order h c = (c, tt)
insert-Covered id key ((j, v) ∷ m) order h c = elim (Bool-cases (j == id)) [
  | inl same ↦ rw same (c, h.1)
  | inr other ↦ rw other (h.0, insert-Covered id key m order h.1 c)
]

abbrev id_eq : Eq SkippedId
id_eq = pair_eq

elem-nil : (j : SkippedId) → elem j [] ≡ false
unfolding elem
elem-nil j = refl

split_elem :
    (j id : SkippedId) (order : List SkippedId)
    → elem j (id ∷ order) ≡ true
    → (j == id) ≡ false
    → elem j order ≡ true
unfolding elem
split_elem j id order h other = elim (Bool-cases (id_eq.beq id j)) [
  | inl same ↦ cc (other, (id_eq.decides j id).1 (sym ((id_eq.decides id j).0 same)))
  | inr e ↦ rw e at h
]

-- Taking the oldest id out of the map leaves the rest covered by the rest.
remove-Covered :
    (id : SkippedId) (m : Map SkippedId Bytes) (order : List SkippedId)
    → Covered m (id ∷ order)
    → Covered (remove id m) order
unfolding remove elem
remove-Covered id [] order h = tt
remove-Covered id ((j, v) ∷ m) order h = elim (Bool-cases (j == id)) [
  | inl same ↦ rw same (remove-Covered id m order h.1)
  | inr other ↦ rw other (split_elem j id order h.0 other, remove-Covered id m order h.1)
]

remove-Covered_same :
    (id : SkippedId) (m : Map SkippedId Bytes) (order : List SkippedId)
    → Covered m order
    → Covered (remove id m) order
unfolding remove
remove-Covered_same id [] order h = tt
remove-Covered_same id ((j, v) ∷ m) order h = elim (Bool-cases (j == id)) [
  | inl same ↦ rw same (remove-Covered_same id m order h.1)
  | inr other ↦ rw other (h.0, remove-Covered_same id m order h.1)
]

length-remove : (id : SkippedId) (m : Map SkippedId Bytes) → length (remove id m) ≤ length m
unfolding remove
length-remove id [] = omega arith
length-remove id ((j, v) ∷ m) = elim (Bool-cases (j == id)) [
  | inl same ↦ rw same (omega (arith, length-remove id m))
  | inr other ↦ rw other (omega (arith, length-remove id m))
]

-- The eviction ends with the map within its cap, and still covered.
evict_loop_bounds :
    (cap : ℕ) (m : Map SkippedId Bytes) (order : List SkippedId)
    → Covered m order
    → let (m', order') = evict_loop cap m order in (length m' ≤ cap) × Covered m' order'
unfolding evict_loop
evict_loop_bounds cap [] [] h = (omega arith, tt)
evict_loop_bounds cap (x ∷ m) [] h = absurd (cc (elem-nil x.0, h.0))
evict_loop_bounds cap m (id ∷ order) h = elim (Bool-cases (ltb cap (length m))) [
  | inl over ↦ rw over (evict_loop_bounds cap (remove id m) order (remove-Covered id m order h))
  | inr fits ↦ rw fits (ground (arith, fits), h)
]

elem-last : (id : SkippedId) (order : List SkippedId) → elem id (order ++ id ∷ []) ≡ true
unfolding elem
elem-last id [] = rw ((id_eq.decides id id).1 refl) refl
elem-last id (x ∷ order) = elim (Bool-cases (id_eq.beq x id)) [
  | inl same ↦ rw same refl
  | inr other ↦ rw other (elem-last id order)
]

-- The bounds of the configuration, and a covered cache within its lifetime cap.
pub record IsBounded (s : RatchetState) : Type 0 where
  pub at_least : min_max_skip ≤ s.max_skip
  pub at_most : s.max_skip ≤ max_max_skip
  pub covered : Covered s.skipped s.skipped_order
  pub capped : length s.skipped ≤ s.max_skip * skipped_cache_lifetime_multiplier

-- The parts of a session that staging and eviction work on, and the limit that they leave alone.
abbrev Stages : RatchetState → ℕ → Type 0
Stages s limit = (s.max_skip ≡ limit) × Covered s.skipped s.skipped_order

stage_skipped-Stages :
    (keys : List (SkippedId × Bytes)) (s : RatchetState) (limit : ℕ)
    → Stages s limit
    → Stages (stage_skipped keys s) limit
unfolding stage_skipped
stage_skipped-Stages [] s limit h = h
stage_skipped-Stages ((id, key) ∷ rest) s limit h = stage_skipped-Stages rest _ limit (
  h.0,
  insert-Covered id key s.skipped _ (Covered-more s.skipped s.skipped_order (id ∷ []) h.1)
      (elem-last id s.skipped_order),
)

evict-IsBounded :
    (s : RatchetState) (limit : ℕ)
    → Stages s limit
    → min_max_skip ≤ limit
    → limit ≤ max_max_skip
    → IsBounded (evict_oldest_skipped_beyond_lifetime_bound s)
unfolding evict_oldest_skipped_beyond_lifetime_bound
evict-IsBounded s limit h lo hi =
    let b =
      evict_loop_bounds (s.max_skip * skipped_cache_lifetime_multiplier) s.skipped s.skipped_order
        h.1 in
    record { at_least = omega arith; at_most = omega arith; covered = b.1; capped = b.0 }

commit_step-Stages :
    (p : Primitives) (key : Bytes) (step : Option (RatchetStep p)) (s : RatchetState)
    → IsBounded s
    → Stages (commit_step p key step s) s.max_skip
unfolding commit_step
commit_step-Stages p key none s b = (refl, b.covered)
commit_step-Stages p key (some step) s b = (refl, b.covered)

module _ (p : Primitives) where
  hit-IsBounded :
      (id : SkippedId) (n : ℕ) (here : Bool) (s : RatchetState)
      → IsBounded s
      → let s' = record s { skipped = remove id s.skipped } in
        IsBounded (if here then record_content_delivered n s' else s')
  unfolding record_content_delivered
  hit-IsBounded id n true s b = record {
    at_least = b.at_least;
    at_most = b.at_most;
    covered = remove-Covered_same id s.skipped s.skipped_order b.covered;
    capped = omega (arith, length-remove id s.skipped, b.capped);
  }
  hit-IsBounded id n false s b = record {
    at_least = b.at_least;
    at_most = b.at_most;
    covered = remove-Covered_same id s.skipped s.skipped_order b.covered;
    capped = omega (arith, length-remove id s.skipped, b.capped);
  }

  decrypt_cached-IsBounded :
      (e : Envelope) (mk : Bytes) (s : RatchetState)
      → IsBounded s
      → IsBounded (decrypt_cached p e mk s).1
  unfolding decrypt_cached
  decrypt_cached-IsBounded e mk s b =
      elim (Result-cases (aead_decrypt p mk (header_bytes e) e.ciphertext)) [
        | inr (x, h) ↦ rw (h, decrypt_cached) b
        | inl (m, h) ↦
            rw (h, decrypt_cached)
              (hit-IsBounded (e.dh_pub, e.n) e.n (is_remote s.dh_remote e.dh_pub) s b)
      ]

  committed-IsBounded :
      (e : Envelope) (step : Option (RatchetStep p)) (ck : Bytes) (keys : List (SkippedId × Bytes))
      (s : RatchetState)
      → IsBounded s
      → IsBounded (committed p e step ck keys s)
  unfolding committed record_content_delivered commit_chain
  committed-IsBounded e step ck keys s b =
      let staged =
        stage_skipped-Stages keys (commit_chain p ck e.n (commit_step p e.dh_pub step s)) s.max_skip
          (commit_step-Stages p e.dh_pub step s b) in
      let r = evict-IsBounded _ s.max_skip staged b.at_least b.at_most in
      record { at_least = r.at_least; at_most = r.at_most; covered = r.covered; capped = r.capped }

  decrypt_chain-IsBounded :
      (k : Bytes) (e : Envelope) (s : RatchetState)
      → IsBounded s
      → IsBounded (decrypt_chain p k e s).1
  decrypt_chain-IsBounded k e s b = elim (decrypt_chain_cases p k e s) [
    | inl (x, h) ↦ rw h b
    | inr (d, h) ↦ rw h (committed-IsBounded e d.step _ _ s b)
  ]

  -- Whatever envelope arrives, genuine or forged, decryption keeps the cache of skipped keys
  -- within four times the configured skip limit, the limit within its bounds, and every cached key
  -- in the order of eviction.
  pub decrypt_raw-IsBounded :
      (k : Bytes) (e : Envelope) (s : RatchetState)
      → IsBounded s
      → IsBounded (decrypt_raw p k e s).1
  unfolding decrypt_raw
  decrypt_raw-IsBounded k e s b = elim (Bool-cases (e.conversation_id == s.conversation_id)) [
    | inr other ↦ rw other b
    | inl same ↦ rw same (elim (Option-cases (lookup (e.dh_pub, e.n) s.skipped)) [
      | inl miss ↦ rw (miss, decrypt_raw) (decrypt_chain-IsBounded k e s b)
      | inr (mk, hit) ↦ rw (hit, decrypt_raw) (decrypt_cached-IsBounded e mk s b)
    ])
  ]

  pub encrypt-IsBounded : (m : Bytes) (s : RatchetState) → IsBounded s → IsBounded (encrypt p m s).1
  unfolding encrypt
  encrypt-IsBounded m s b = ground arith
