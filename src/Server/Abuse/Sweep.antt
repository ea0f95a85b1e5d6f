-- ===== src/Server/Abuse/Sweep.antt =====
-- Sweeping stale buckets frees memory and changes no answer.
use dratchet.Base.{
  ℕ, ◌+◌, ◌-◌, ◌≤◌, ◌≡◌, refl, sym, Option, none, some, [], ◌∷◌, Eq, min, ltb, if◌then◌else◌, Map,
  lookup, filter, IsMap, arith, Bool-cases, inl, inr,
}
use dratchet.Server.Abuse.{RateBucket, Limit, full, bucket_at, take_token, sweep_stale}

-- A bucket that has been idle long enough to fill up answers as a fresh one does.
stale-fresh :
    (l : Limit) (now : ℕ) (b : RateBucket)
    → full l ≤ now - b.last_refill
    → take_token l now b ≡ take_token l now (bucket_at l now none)
unfolding take_token bucket_at
stale-fresh l now b h =
    let old : min (b.tokens + (now - b.last_refill)) (full l) ≡ full l = omega arith in
    let new : min (full l + (now - now)) (full l) ≡ full l = omega arith in rw (old, new) refl

abbrev fresh_enough : ℕ → ℕ → Option RateBucket → Option RateBucket
fresh_enough older now none = none
fresh_enough older now (some b) = if ltb (now - b.last_refill) older then some b else none

fresh_answer :
    (l : Limit) (older now later : ℕ) (o : Option RateBucket)
    → full l ≤ older
    → now ≤ later
    → take_token l later (bucket_at l later (fresh_enough older now o))
      ≡ take_token l later (bucket_at l later o)
unfolding bucket_at
fresh_answer l older now later none fills after = refl
fresh_answer l older now later (some b) fills after =
    elim (Bool-cases (ltb (now - b.last_refill) older)) [
      | inl young ↦ rw young refl
      | inr stale ↦ rw stale (sym (stale-fresh l later b (ground (arith, stale))))
    ]

module _ {ℓ} {K : Type ℓ} ⦃e : Eq K⦄ where
  lookup-filter :
      (j : K) (older now : ℕ) (m : Map K RateBucket)
      → IsMap m
      → lookup j (filter (λ b. ltb (now - b.1.last_refill) older) m)
        ≡ fresh_enough older now (lookup j m)
  unfolding lookup filter
  lookup-filter j older now [] u = refl
  lookup-filter j older now ((k, b) ∷ m) u =
      ground (arith, e.decides k j, lookup-filter j older now m u.1, u.0)

  -- A sweep changes no answer: with an age limit of at least the time that fills a bucket, every
  -- later request of every key is answered as it would have been without the sweep, and leaves the
  -- same bucket behind. No key stands twice in the map.
  pub sweep_unobservable :
      (l : Limit) (j : K) (older now later : ℕ) (m : Map K RateBucket)
      → IsMap m
      → full l ≤ older
      → now ≤ later
      → take_token l later (bucket_at l later (lookup j (sweep_stale older now m).1))
        ≡ take_token l later (bucket_at l later (lookup j m))
  unfolding sweep_stale
  sweep_unobservable l j older now later m u fills after =
      rw (lookup-filter j older now m u) (fresh_answer l older now later (lookup j m) fills after)
