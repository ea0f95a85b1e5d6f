-- ===== src/Core/Ratchet/Tracker.antt =====
-- core/src/ratchet.rs: the contiguous-delivery tracker of the current receiving chain, the fields
-- `content_delivered_contiguous` and `content_delivered_out_of_order` of a session.
pub mod Frontier
use dratchet.Base.{
  ℕ, zero, suc, ◌+◌, ◌%◌, Bool, not, Option, none, some, List, [], ◌∷◌, eqb, ltb, if◌then◌else◌,
  nat_eq, length, filter, elem,
}
use dratchet.Core.Words.{u32_mod}

-- `BTreeSet::insert` and `BTreeSet::remove`, on the sorted list of the elements
unfoldable pub set_insert : ℕ → List ℕ → List ℕ
set_insert n [] = n ∷ []
set_insert n (x ∷ xs) =
    if eqb n x then x ∷ xs else if ltb n x then n ∷ x ∷ xs else x ∷ set_insert n xs

unfoldable pub set_remove : ℕ → List ℕ → List ℕ
unfolding filter
set_remove n = filter (λ x. not (eqb x n))

pub record Tracker : Type 0 where
  pub contiguous : Option ℕ
  pub out_of_order : List ℕ

abbrev pub wrapping_succ : ℕ → ℕ
wrapping_succ n = (n + 1) % u32_mod

-- The loop that pulls the numbers behind a closed gap in; each round takes one out of the set.
unfoldable pub absorb : ℕ → ℕ → List ℕ → Tracker
absorb zero new_contig rest = record { contiguous = some new_contig; out_of_order = rest }
absorb (suc fuel) new_contig rest =
    let next = wrapping_succ new_contig in
    let further = absorb fuel next (set_remove next rest) in
    if elem next rest then further else record { contiguous = some new_contig; out_of_order = rest }

unfoldable pub expected_next : Option ℕ → ℕ
expected_next none = 0
expected_next (some c) = wrapping_succ c

unfoldable pub track : ℕ → Tracker → Tracker
unfolding expected_next
track n t =
    if eqb n (expected_next t.contiguous)
    then absorb (length t.out_of_order) n t.out_of_order
    else if ltb (expected_next t.contiguous) n
    then record t { out_of_order = set_insert n t.out_of_order }
    else t

unfoldable pub fresh_tracker : Tracker
fresh_tracker = record { contiguous = none; out_of_order = [] }
