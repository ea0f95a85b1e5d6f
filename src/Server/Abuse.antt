-- ===== src/Server/Abuse.antt =====
-- server/src/abuse.rs: the token buckets, and the proof of work that a registration costs.
--
-- The source counts tokens as `f64`. Here a token is worth the nanoseconds that its refill takes, so
-- the refill is the elapsed time itself and the arithmetic is exact; rounding is not modelled.
-- `Instant::now()` is the argument `now`, in nanoseconds.
pub mod Budget
pub mod Sweep
pub mod Work
mod Tests
use dratchet.Base.{
  ℕ, zero, suc, ◌+◌, ◌-◌, ◌*◌, ◌/◌, ◌%◌, ◌^◌, ◌≤◌, Bool, true, false, Option, none, some, List, [],
  ◌∷◌, ◌++◌, Bytes, bytes_eq, nat_eq, pair_eq, Eq, ltb, leb, eqb, if◌then◌else◌, min, Map, lookup,
  insert, length, filter, codes,
}
use dratchet.Core.Words.{to_be_bytes}
use dratchet.Core.Identity.{Signatures}

abbrev pub Fingerprint : Type 0
Fingerprint = Bytes

abbrev pub ConnectionId : Type 0
ConnectionId = Bytes

pub record RateBucket : Type 0 where
  pub tokens : ℕ
  pub last_refill : ℕ

-- The capacity in tokens and the nanoseconds that one token takes to refill.
pub record Limit : Type 0 where
  pub capacity : ℕ
  pub period : ℕ

abbrev pub full : Limit → ℕ
full l = l.capacity * l.period

abbrev pub nanos_per_sec : ℕ
nanos_per_sec = 1_000_000_000

abbrev pub fetch_limit : Limit
fetch_limit = record { capacity = 5; period = 5 * nanos_per_sec }

abbrev pub new_mailbox_limit : Limit
new_mailbox_limit = record { capacity = 20; period = 30 * nanos_per_sec }

abbrev pub rendezvous_limit : Limit
rendezvous_limit = record { capacity = 10; period = 5 * nanos_per_sec }

abbrev pub mailbox_fetch_limit : Limit
mailbox_fetch_limit = record { capacity = 600; period = nanos_per_sec / 50 }

abbrev pub mailbox_delete_limit : Limit
mailbox_delete_limit = record { capacity = 600; period = nanos_per_sec / 50 }

-- `entry(key).or_insert_with(full bucket)`
unfoldable pub bucket_at : Limit → ℕ → Option RateBucket → RateBucket
bucket_at l now none = record { tokens = full l; last_refill = now }
bucket_at l now (some b) = b

-- The refill and the test of one request, on its bucket.
unfoldable pub take_token : Limit → ℕ → RateBucket → Bool × RateBucket
take_token l now b =
    let refilled = min (b.tokens + (now - b.last_refill)) (full l) in
    if leb l.period refilled
    then (true, record { tokens = refilled - l.period; last_refill = now })
    else (false, record { tokens = refilled; last_refill = now })

module _ {ℓ} {K : Type ℓ} ⦃e : Eq K⦄ where
  -- The shared body of the five limiters' `allow`.
  unfoldable pub allow : Limit → ℕ → K → Map K RateBucket → Bool × Map K RateBucket
  allow l now key buckets =
      let (granted, b) = take_token l now (bucket_at l now (lookup key buckets)) in
      (granted, insert key b buckets)

  -- `sweep_stale`, with the number of buckets that it removed.
  unfoldable pub sweep_stale : ℕ → ℕ → Map K RateBucket → ℕ × Map K RateBucket
  sweep_stale older_than now buckets =
      let kept = filter (λ b. ltb (now - b.1.last_refill) older_than) buckets in
      (length buckets - length kept, kept)

abbrev pub FetchRateLimiter : Type 0
FetchRateLimiter = Map (ConnectionId × Fingerprint) RateBucket

abbrev pub Limiter : Type 0
Limiter = Map Fingerprint RateBucket

unfoldable pub fetch_allow :
    ℕ → ConnectionId → Fingerprint → FetchRateLimiter → Bool × FetchRateLimiter
unfolding allow
fetch_allow now requester target = allow fetch_limit now (requester, target)

unfoldable pub new_mailbox_allow : ℕ → Fingerprint → Limiter → Bool × Limiter
unfolding allow
new_mailbox_allow now writer = allow new_mailbox_limit now writer

unfoldable pub rendezvous_allow : ℕ → Fingerprint → Limiter → Bool × Limiter
unfolding allow
rendezvous_allow now sender = allow rendezvous_limit now sender

unfoldable pub mailbox_fetch_allow : ℕ → Fingerprint → Limiter → Bool × Limiter
unfolding allow
mailbox_fetch_allow now fetcher = allow mailbox_fetch_limit now fetcher

unfoldable pub mailbox_delete_allow : ℕ → Fingerprint → Limiter → Bool × Limiter
unfolding allow
mailbox_delete_allow now deleter = allow mailbox_delete_limit now deleter

abbrev pub registration_pow_difficulty_bits : ℕ
registration_pow_difficulty_bits = 12

-- `u16::to_be_bytes` and `u64::to_be_bytes`
abbrev u16_bytes : ℕ → Bytes
u16_bytes n = (n / 2 ^ 8 % 256) ∷ (n % 256) ∷ []

abbrev u64_bytes : ℕ → Bytes
u64_bytes n = to_be_bytes (n / 2 ^ 32 % 2 ^ 32) ++ to_be_bytes (n % 2 ^ 32)

unfoldable pub pow_hash : Signatures → Bytes → ℕ → Bytes → ℕ → Bytes
pow_hash g username discriminator identity_key solution = g.sha256 (
    codes "dratchet-registration-pow-v1"
    ++ (username ++ (u16_bytes discriminator ++ (identity_key ++ u64_bytes solution))))

-- `u8::leading_zeros` of a byte that is not zero
unfoldable pub leading_zeros : ℕ → ℕ
leading_zeros b =
    if leb 128 b
    then 0
    else if leb 64 b
    then 1
    else if leb 32 b
    then 2
    else if leb 16 b
    then 3
    else if leb 8 b
    then 4
    else if leb 4 b
    then 5
    else if leb 2 b
    then 6
    else 7

unfoldable pub leading_zero_bits : Bytes → ℕ
leading_zero_bits [] = 0
leading_zero_bits (b ∷ hash) =
    let rest = leading_zero_bits hash in if eqb b 0 then 8 + rest else leading_zeros b

unfoldable pub verify_registration_pow : Signatures → Bytes → ℕ → Bytes → ℕ → Bool
verify_registration_pow g username discriminator identity_key solution =
    leb registration_pow_difficulty_bits
      (leading_zero_bits (pow_hash g username discriminator identity_key solution))

-- The loop, for as many tries as the fuel: `none` where it has not ended by then.
unfoldable pub solve_from : Signatures → Bytes → ℕ → Bytes → (fuel solution : ℕ) → Option ℕ
solve_from g username discriminator identity_key zero solution = none
solve_from g username discriminator identity_key (suc fuel) solution =
    let further = solve_from g username discriminator identity_key fuel (solution + 1) in
    if verify_registration_pow g username discriminator identity_key solution
    then some solution
    else further

unfoldable pub solve_registration_pow : Signatures → Bytes → ℕ → Bytes → (fuel : ℕ) → Option ℕ
solve_registration_pow g username discriminator identity_key fuel =
    solve_from g username discriminator identity_key fuel 0
