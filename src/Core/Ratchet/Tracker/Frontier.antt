-- ===== src/Core/Ratchet/Tracker/Frontier.antt =====
-- The tracker against its meaning, the set of message numbers that were decrypted: the frontier
-- never runs ahead of it, and never stays behind.
use dratchet.Base.{
  ℕ, zero, suc, ◌+◌, ◌≤◌, ◌<◌, ◌≡◌, refl, Bool, true, false, not, ◌&&◌, ◌||◌, Option, none, some,
  List, [], ◌∷◌, eqb, leb, ltb, nat_eq, length, elem, arith, Bool-cases, inl, inr, ◌∙◌, sym, ap,
}
use dratchet.Core.Words.{u32_mod}
use dratchet.Core.Ratchet.Tracker.{
  Tracker, set_insert, set_remove, absorb, expected_next, track, fresh_tracker, wrapping_succ,
}

abbrev pub within : Option ℕ → ℕ → Bool
within none k = false
within (some c) k = leb k c

-- Number `k` counts as decrypted.
unfoldable pub delivered : Tracker → ℕ → Bool
delivered t k = within t.contiguous k || elem k t.out_of_order

elem-set_insert : (k n : ℕ) (xs : List ℕ) → elem k (set_insert n xs) ≡ (eqb n k || elem k xs)
unfolding elem set_insert
elem-set_insert k n [] = refl
elem-set_insert k n (x ∷ xs) = ground (arith, elem-set_insert k n xs)

elem-set_remove : (k n : ℕ) (xs : List ℕ) → elem k (set_remove n xs) ≡ (not (eqb n k) && elem k xs)
unfolding elem set_remove
elem-set_remove k n [] = ground arith
elem-set_remove k n (x ∷ xs) = ground (arith, elem-set_remove k n xs)

length-set_remove_le : (n : ℕ) (xs : List ℕ) → length (set_remove n xs) ≤ length xs
unfolding set_remove
length-set_remove_le n [] = omega arith
length-set_remove_le n (x ∷ xs) = ground (arith, length-set_remove_le n xs)

length-set_remove : (n : ℕ) (xs : List ℕ) → elem n xs ≡ true → length (set_remove n xs) < length xs
unfolding elem set_remove
length-set_remove n [] h = cc
length-set_remove n (x ∷ xs) h = ground (arith, length-set_remove n xs, length-set_remove_le n xs)

-- Every number waits beyond the frontier, and leaves room for its successor in 32 bits.
abbrev pub Beyond : ℕ → List ℕ → Type 0
Beyond c [] = Unit {0}
Beyond c (x ∷ xs) = (c < x) × (x + 1 < u32_mod) × Beyond c xs

Beyond-elem : (c n : ℕ) (xs : List ℕ) → Beyond c xs → elem n xs ≡ true → (c < n) × (n + 1 < u32_mod)
unfolding elem
Beyond-elem c n [] b h = cc
Beyond-elem c n (x ∷ xs) b h = ground (arith, Beyond-elem c n xs b.2)

Beyond-miss : (c : ℕ) (xs : List ℕ) → Beyond c xs → elem c xs ≡ false
unfolding elem
Beyond-miss c [] b = refl
Beyond-miss c (x ∷ xs) b = ground (arith, Beyond-miss c xs b.2)

Beyond-weaken : (c d : ℕ) (xs : List ℕ) → Beyond c xs → d ≤ c → Beyond d xs
Beyond-weaken c d [] b h = tt
Beyond-weaken c d (x ∷ xs) b h = (omega arith, b.1, Beyond-weaken c d xs b.2 h)

set_remove-Beyond : (c : ℕ) (xs : List ℕ) → Beyond c xs → Beyond (c + 1) (set_remove (c + 1) xs)
unfolding set_remove
set_remove-Beyond c [] b = tt
set_remove-Beyond c (x ∷ xs) b = ground (arith, set_remove-Beyond c xs b.2)

miss-Beyond : (c : ℕ) (xs : List ℕ) → Beyond c xs → elem (c + 1) xs ≡ false → Beyond (c + 1) xs
unfolding elem
miss-Beyond c [] b h = tt
miss-Beyond c (x ∷ xs) b h = ground (arith, miss-Beyond c xs b.2)

set_insert-Beyond :
    (c n : ℕ) (xs : List ℕ) → Beyond c xs → c < n → n + 1 < u32_mod → Beyond c (set_insert n xs)
unfolding set_insert
set_insert-Beyond c n [] b h u = (h, u, tt)
set_insert-Beyond c n (x ∷ xs) b h u = ground (arith, set_insert-Beyond c n xs b.2)

abbrev pub floor : Option ℕ → ℕ
floor none = 0
floor (some c) = c + 1

-- All numbers that wait lie beyond the one that the frontier waits for.
pub record IsTracker (t : Tracker) : Type 0 where
  pub room : floor t.contiguous < u32_mod
  pub gap : Beyond (floor t.contiguous) t.out_of_order

absorb_lem :
    (fuel c : ℕ) (xs : List ℕ)
    → length xs ≤ fuel
    → c + 1 < u32_mod
    → Beyond c xs
    → IsTracker (absorb fuel c xs)
      × ((k : ℕ) → delivered (absorb fuel c xs) k ≡ (leb k c || elem k xs))
unfolding absorb delivered
absorb_lem zero c [] l u b = (record { room = u; gap = tt }, λ k. refl)
absorb_lem zero c (x ∷ xs) l u b = absurd (omega arith)
absorb_lem (suc fuel) c xs l u b =
    let next : wrapping_succ c ≡ c + 1 = omega arith in
    elim (Bool-cases (elem (c + 1) xs)) [
      | inl hit ↦
          let bounds = Beyond-elem c (c + 1) xs b hit in
          let short = length-set_remove (c + 1) xs hit in
          let ih =
            absorb_lem fuel (c + 1) (set_remove (c + 1) xs) (omega arith) bounds.1
              (set_remove-Beyond c xs b) in
          rw (next, hit) (ih.0, λ k. ih.1 k ∙ ground (arith, elem-set_remove k (c + 1) xs, hit))
      | inr miss ↦ rw (next, miss) (record { room = u; gap = miss-Beyond c xs b miss }, λ k. refl)
    ]

expected_next-floor : (o : Option ℕ) → floor o < u32_mod → expected_next o ≡ floor o
unfolding expected_next
expected_next-floor none h = refl
expected_next-floor (some c) h = omega arith

within-floor : (o : Option ℕ) (k : ℕ) → within o k ≡ ltb k (floor o)
within-floor none k = ground arith
within-floor (some c) k = ground arith

track_next :
    (n : ℕ) (t : Tracker)
    → IsTracker t
    → n + 1 < u32_mod
    → n ≡ floor t.contiguous
    → IsTracker (absorb (length t.out_of_order) n t.out_of_order)
      × ((k : ℕ)
          → delivered (absorb (length t.out_of_order) n t.out_of_order) k
            ≡ (eqb n k || delivered t k))
unfolding delivered
track_next n t i u e =
    let r =
      absorb_lem (length t.out_of_order) n t.out_of_order (omega arith) u
        (Beyond-weaken (floor t.contiguous) n t.out_of_order i.gap (omega arith)) in
    (r.0, λ k. r.1 k ∙ rw (within-floor t.contiguous k, ← e) (ground arith))

track_ahead :
    (n : ℕ) (t : Tracker)
    → IsTracker t
    → n + 1 < u32_mod
    → floor t.contiguous < n
    → let t' = record t { out_of_order = set_insert n t.out_of_order } in
      IsTracker t' × ((k : ℕ) → delivered t' k ≡ (eqb n k || delivered t k))
unfolding delivered
track_ahead n t i u h = (
  record { room = i.room; gap = set_insert-Beyond _ n t.out_of_order i.gap h u },
  λ k. ground (arith, elem-set_insert k n t.out_of_order),
)

track_behind :
    (n : ℕ) (t : Tracker)
    → n < floor t.contiguous
    → (k : ℕ) → delivered t k ≡ (eqb n k || delivered t k)
unfolding delivered
track_behind n t h k = rw (within-floor t.contiguous k) (ground arith)

-- Recording a delivered number adds that number and nothing else, and keeps the tracker in order,
-- if it was and the number has a successor in 32 bits.
pub track-delivered :
    (n : ℕ) (t : Tracker)
    → IsTracker t
    → n + 1 < u32_mod
    → IsTracker (track n t) × ((k : ℕ) → delivered (track n t) k ≡ (eqb n k || delivered t k))
unfolding track
track-delivered n t i u =
    rw (expected_next-floor t.contiguous i.room) (elim (Bool-cases (eqb n (floor t.contiguous))) [
      | inl e ↦ rw e (track_next n t i u (ground (arith, e)))
      | inr ne ↦ rw ne (elim (Bool-cases (ltb (floor t.contiguous) n)) [
        | inl ahead ↦ rw ahead (track_ahead n t i u (ground (arith, ahead)))
        | inr behind ↦ rw behind (i, track_behind n t (ground (arith, ne, behind)))
      ])
    ])

-- The tracker after the numbers `ns` were decrypted, in that order, on a fresh chain.
unfoldable pub track_all : Tracker → List ℕ → Tracker
track_all t [] = t
track_all t (n ∷ ns) = track_all (track n t) ns

abbrev pub HasRoom : List ℕ → Type 0
HasRoom [] = Unit {0}
HasRoom (n ∷ ns) = (n + 1 < u32_mod) × HasRoom ns

pub track_all-delivered :
    (t : Tracker) (ns : List ℕ)
    → IsTracker t
    → HasRoom ns
    → IsTracker (track_all t ns)
      × ((k : ℕ) → delivered (track_all t ns) k ≡ (elem k ns || delivered t k))
unfolding track_all elem
track_all-delivered t [] i u = (i, λ k. refl)
track_all-delivered t (n ∷ ns) i u =
    let step = track-delivered n t i u.0 in
    let rest = track_all-delivered (track n t) ns step.0 u.1 in
    (rest.0, λ k. rest.1 k ∙ ground (arith, step.1 k))

pub fresh_tracker-IsTracker : IsTracker fresh_tracker
unfolding fresh_tracker
fresh_tracker-IsTracker = record { room = omega arith; gap = tt }

fresh_tracker-delivered : (k : ℕ) → delivered fresh_tracker k ≡ false
unfolding fresh_tracker delivered elem
fresh_tracker-delivered k = refl

-- What a frontier says of a tracker that is in order.
frontier_reads :
    (t : Tracker) (h : ℕ)
    → IsTracker t
    → t.contiguous ≡ some h
    → ((k : ℕ) → k ≤ h → delivered t k ≡ true) × (delivered t (h + 1) ≡ false)
unfolding delivered
frontier_reads t h i e = (
  λ k le. ground (arith, e),
  ground (arith, e, Beyond-miss (h + 1) t.out_of_order (rw (ap floor e) at i.gap)),
)

-- The frontier is exact: with `h` reported after any deliveries on a fresh chain, in any order,
-- every number up to `h` was delivered and the next one was not. The numbers have successors in 32
-- bits.
pub track_all_frontier :
    (ns : List ℕ) (h : ℕ)
    → HasRoom ns
    → (track_all fresh_tracker ns).contiguous ≡ some h
    → ((k : ℕ) → k ≤ h → elem k ns ≡ true) × (elem (h + 1) ns ≡ false)
track_all_frontier ns h u e =
    let all = track_all-delivered fresh_tracker ns fresh_tracker-IsTracker u in
    let reads = frontier_reads (track_all fresh_tracker ns) h all.0 e in
    let meaning : (k : ℕ) → delivered (track_all fresh_tracker ns) k ≡ elem k ns =
      λ k. all.1 k ∙ ground (arith, fresh_tracker-delivered k) in
    (λ k le. sym (meaning k) ∙ reads.0 k le, sym (meaning (h + 1)) ∙ reads.1)
