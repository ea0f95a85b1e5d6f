-- ===== src/Store/Messages/Order.antt =====
-- Listings are in the order of time.
use dratchet.Base.{
  ℕ, ◌≡◌, refl, ◌∙◌, Bool, true, false, ◌&&◌, List, [], ◌∷◌, arith, Bool-cases, inl, inr, eqb,
  filter, all,
}
use dratchet.Store.Records.{Message}
use dratchet.Store.Messages.{not_after, insert_by_time, sort_by_time}

-- Is each message not after those that follow it?
unfoldable pub IsInOrder : List Message → Type 0
IsInOrder [] = Unit
IsInOrder (m ∷ ms) = (all (not_after m) ms ≡ true) × IsInOrder ms

not_after_trans :
    (a b c : Message) → not_after a b ≡ true → not_after b c ≡ true → not_after a c ≡ true
not_after_trans a b c h k = ground arith

not_after_total : (a b : Message) → not_after a b ≡ false → not_after b a ≡ true
not_after_total a b h = ground arith

all_after :
    (a b : Message) (ms : List Message)
    → not_after a b ≡ true
    → all (not_after b) ms ≡ true
    → all (not_after a) ms ≡ true
unfolding all
all_after a b [] h k = refl
all_after a b (m ∷ ms) h k = ground (arith, all_after a b ms, not_after_trans a b m)

all-insert_by_time :
    (test : Message → Bool) (m : Message) (ms : List Message)
    → all test (insert_by_time m ms) ≡ (test m && all test ms)
unfolding all insert_by_time
all-insert_by_time test m [] = refl
all-insert_by_time test m (n ∷ ns) = ground (arith, all-insert_by_time test m ns)

insert_by_time-IsInOrder :
    (m : Message) (ms : List Message) → IsInOrder ms → IsInOrder (insert_by_time m ms)
unfolding IsInOrder insert_by_time all
insert_by_time-IsInOrder m [] h = (refl, tt)
insert_by_time-IsInOrder m (n ∷ ns) (first, rest) = elim (Bool-cases (not_after m n)) [
  | inl before ↦ rw before ((ground (arith, before, all_after m n ns before first)), (first, rest))
  | inr later ↦ rw later (
    ground (arith, all-insert_by_time (not_after n) m ns, not_after_total m n later, first),
    insert_by_time-IsInOrder m ns rest,
  )
]

sort_by_time-IsInOrder : (ms : List Message) → IsInOrder (sort_by_time ms)
unfolding IsInOrder sort_by_time
sort_by_time-IsInOrder [] = tt
sort_by_time-IsInOrder (m ∷ ms) =
    insert_by_time-IsInOrder m (sort_by_time ms) (sort_by_time-IsInOrder ms)

abbrev pub is_at : ℕ → ℕ → Message → Bool
is_at timestamp sequence m = eqb m.timestamp timestamp && eqb m.sequence sequence

filter-insert_by_time :
    (timestamp sequence : ℕ) (m : Message) (ms : List Message)
    → filter (is_at timestamp sequence) (insert_by_time m ms)
      ≡ filter (is_at timestamp sequence) (m ∷ ms)
unfolding filter insert_by_time
filter-insert_by_time timestamp sequence m [] = refl
filter-insert_by_time timestamp sequence m (n ∷ ns) =
    ground (arith, filter-insert_by_time timestamp sequence m ns)

filter-sort_by_time :
    (timestamp sequence : ℕ) (ms : List Message)
    → filter (is_at timestamp sequence) (sort_by_time ms) ≡ filter (is_at timestamp sequence) ms
unfolding sort_by_time filter
filter-sort_by_time timestamp sequence [] = refl
filter-sort_by_time timestamp sequence (m ∷ ms) =
    filter-insert_by_time timestamp sequence m (sort_by_time ms)
    ∙ ground (arith, filter-sort_by_time timestamp sequence ms)

-- Sorting a listing puts each message before those with a later time, or with the same time and a higher
-- sequence number, and it is a stable rearrangement: the messages of any one time and sequence number are
-- the same ones, in the order in which they were.
pub sort_by_time_lem :
    (timestamp sequence : ℕ) (ms : List Message)
    → IsInOrder (sort_by_time ms)
      × (filter (is_at timestamp sequence) (sort_by_time ms) ≡ filter (is_at timestamp sequence) ms)
sort_by_time_lem timestamp sequence ms =
    (sort_by_time-IsInOrder ms, filter-sort_by_time timestamp sequence ms)
