-- ===== src/Server/Address/Slots.antt =====
-- server/src/address.rs, and `AddressSlot` of server/src/ws.rs: every open connection holds one slot of its address.
use dratchet.Base.{
  ℕ, ◌+◌, ◌-◌, ◌≤◌, ◌≡◌, refl, ap, ◌∙◌, Bool, ◌||◌, Option, none, some, List, [], ◌∷◌, ◌++◌, arith,
  Map, lookup, lookup-insert, insert, IsMap, insert-IsMap, filter-IsMap, lookup-filter-none, filter,
  ltb, if◌then◌else◌, ok, err, ◌==◌, Option-cases, inl, inr,
}
use dratchet.Server.Abuse.{Limit}
use dratchet.Server.Address.{
  AddressKey, key_eq, AddressEntry, AddressLimiter, AddressRefusal, refilled_entry, admit,
  try_acquire, release, sweep_addresses,
}

-- The limiter, and the keys of the slots that the open connections hold
abbrev pub System : Type 0
System = AddressLimiter × List AddressKey

-- A connection is admitted or refused, ends and drops its slot, or the sweep runs.
pub data Step : System → System → Type 0 where
  opens :
      {s : AddressLimiter} {held : List AddressKey} (key : AddressKey) (now : ℕ)
      → (try_acquire key now s).0 ≡ ok tt
      → Step (s, held) ((try_acquire key now s).1, key ∷ held)
  refused :
      {s : AddressLimiter} {held : List AddressKey} (key : AddressKey) (now : ℕ)
      (e : AddressRefusal)
      → (try_acquire key now s).0 ≡ err e
      → Step (s, held) ((try_acquire key now s).1, held)
  closes :
      {s : AddressLimiter} (before after : List AddressKey) (key : AddressKey)
      → Step (s, before ++ key ∷ after) (release key s, before ++ after)
  sweeps :
      {s : AddressLimiter} {held : List AddressKey} (older_than now : ℕ)
      → Step (s, held) ((sweep_addresses older_than now s).1, held)

pub data Reachable (start : System) : System → Type 0 where
  at_start : Reachable start start
  by_step : {x y : System} → Reachable start x → Step x y → Reachable start y

unfoldable pub count : AddressKey → List AddressKey → ℕ
count key [] = 0
count key (k ∷ held) = (if k == key then 1 else 0) + count key held

abbrev pub active : Option AddressEntry → ℕ
active none = 0
active (some e) = e.active

-- The limiter counts exactly the slots that are held, and no address has more than its share.
pub record IsBalanced (x : System) : Type 0 where
  pub is_map : IsMap x.0.entries
  pub counts : (key : AddressKey) → active (lookup key x.0.entries) ≡ count key x.1
  pub bounded : (key : AddressKey) → count key x.1 ≤ x.0.max_concurrent

admit_granted :
    (max_concurrent : ℕ) (l : Limit) (e : AddressEntry)
    → (admit max_concurrent l e).0 ≡ ok tt
    → ((admit max_concurrent l e).1.active ≡ e.active + 1) × (e.active + 1 ≤ max_concurrent)
unfolding admit
admit_granted max_concurrent l e h = ground arith

admit_denied :
    (max_concurrent : ℕ) (l : Limit) (e : AddressEntry) (why : AddressRefusal)
    → (admit max_concurrent l e).0 ≡ err why
    → (admit max_concurrent l e).1.active ≡ e.active
unfolding admit
admit_denied max_concurrent l e why h = ground arith

refilled_entry-active :
    (l : Limit) (now : ℕ) (o : Option AddressEntry) → (refilled_entry l now o).active ≡ active o
unfolding refilled_entry
refilled_entry-active l now none = refl
refilled_entry-active l now (some e) = refl

active-insert :
    (k key : AddressKey) (e : AddressEntry) (m : Map AddressKey AddressEntry)
    → active (lookup k (insert key e m)) ≡ (if key == k then e.active else active (lookup k m))
active-insert k key e m = ap active (lookup-insert k key e m) ∙ ground arith

count-append :
    (k : AddressKey) (xs ys : List AddressKey) → count k (xs ++ ys) ≡ count k xs + count k ys
unfolding count
count-append k [] ys = omega arith
count-append k (x ∷ xs) ys = omega (arith, count-append k xs ys)

opens-IsBalanced :
    (s : AddressLimiter) (held : List AddressKey) (key : AddressKey) (now : ℕ)
    → (try_acquire key now s).0 ≡ ok tt
    → IsBalanced (s, held)
    → IsBalanced ((try_acquire key now s).1, key ∷ held)
unfolding try_acquire count
opens-IsBalanced s held key now h b =
    let e = refilled_entry s.limit now (lookup key s.entries) in
    let e' = (admit s.max_concurrent s.limit e).1 in
    let same = refilled_entry-active s.limit now (lookup key s.entries) in
    let granted = admit_granted s.max_concurrent s.limit e h in
    record {
      is_map = insert-IsMap key e' s.entries b.is_map;
      counts = λ k. ground (
        arith,
        active-insert k key e' s.entries,
        same,
        granted,
        b.counts k,
        b.counts key,
        key_eq.decides key k,
      );
      bounded = λ k. ground (arith, same, granted, b.counts key, b.bounded k, key_eq.decides key k);
    }

refused-IsBalanced :
    (s : AddressLimiter) (held : List AddressKey) (key : AddressKey) (now : ℕ)
    (why : AddressRefusal)
    → (try_acquire key now s).0 ≡ err why
    → IsBalanced (s, held)
    → IsBalanced ((try_acquire key now s).1, held)
unfolding try_acquire
refused-IsBalanced s held key now why h b =
    let e = refilled_entry s.limit now (lookup key s.entries) in
    let e' = (admit s.max_concurrent s.limit e).1 in
    let same = refilled_entry-active s.limit now (lookup key s.entries) in
    let denied = admit_denied s.max_concurrent s.limit e why h in
    record {
      is_map = insert-IsMap key e' s.entries b.is_map;
      counts = λ k. ground (
        arith,
        active-insert k key e' s.entries,
        same,
        denied,
        b.counts k,
        b.counts key,
        key_eq.decides key k,
      );
      bounded = b.bounded;
    }

release_entries :
    (key : AddressKey) (s : AddressLimiter) (e : AddressEntry)
    → lookup key s.entries ≡ some e
    → release key s
      ≡ record s { entries = insert key (record e { active = e.active - 1 }) s.entries }
unfolding release
release_entries key s e found = rw (found, release) refl

closes-IsBalanced :
    (s : AddressLimiter) (before after : List AddressKey) (key : AddressKey)
    → IsBalanced (s, before ++ key ∷ after)
    → IsBalanced (release key s, before ++ after)
unfolding count
closes-IsBalanced s before after key b =
    let split = λ (k : AddressKey). count-append k before (key ∷ after) in
    let joined = λ (k : AddressKey). count-append k before after in
    elim (Option-cases (lookup key s.entries)) [
      | inl absent ↦
          absurd (ground (arith, b.counts key, absent, split key, key_eq.decides key key))
      | inr (e, found) ↦ rw (release_entries key s e found) (record {
        is_map = insert-IsMap key (record e { active = e.active - 1 }) s.entries b.is_map;
        counts = λ k. ground (
          arith,
          active-insert k key (record e { active = e.active - 1 }) s.entries,
          found,
          b.counts k,
          split k,
          joined k,
          key_eq.decides key k,
        );
        bounded = λ k. ground (arith, b.bounded k, split k, joined k);
      })
    ]

abbrev keeps : ℕ → ℕ → AddressKey × AddressEntry → Bool
keeps older_than now b = ltb 0 b.1.active || ltb (now - b.1.last_refill) older_than

-- The sweep forgets only entries without a slot.
active-filter :
    (older_than now : ℕ) (k : AddressKey) (m : Map AddressKey AddressEntry)
    → IsMap m
    → active (lookup k (filter (keeps older_than now) m)) ≡ active (lookup k m)
unfolding filter lookup
active-filter older_than now k [] u = refl
active-filter older_than now k ((j, e) ∷ m) u = ground (
  arith,
  active-filter older_than now k m u.1,
  lookup-filter-none k (keeps older_than now) m,
  u.0,
  key_eq.decides j k,
)

sweeps-IsBalanced :
    (s : AddressLimiter) (held : List AddressKey) (older_than now : ℕ)
    → IsBalanced (s, held)
    → IsBalanced ((sweep_addresses older_than now s).1, held)
unfolding sweep_addresses
sweeps-IsBalanced s held older_than now b = record {
  is_map = filter-IsMap (keeps older_than now) s.entries b.is_map;
  counts = λ k. active-filter older_than now k s.entries b.is_map ∙ b.counts k;
  bounded = b.bounded;
}

-- From a limiter without entries and without connections, whatever connections are admitted, refused
-- and ended and whenever the sweep runs: the limiter counts for every address exactly the slots that its open
-- connections hold, which are at most `max_concurrent`, and has one entry for an address.
pub Reachable-IsBalanced :
    (start : AddressLimiter) (x : System)
    → start.entries ≡ []
    → Reachable (start, []) x
    → IsBalanced x
unfolding count lookup
Reachable-IsBalanced start x empty at_start = record {
  is_map = rw empty tt;
  counts = λ key. rw empty refl;
  bounded = λ key. omega arith;
}
Reachable-IsBalanced start x empty (by_step before (opens {s} {held} key now h)) =
    opens-IsBalanced s held key now h (Reachable-IsBalanced start (s, held) empty before)
Reachable-IsBalanced start x empty (by_step before (refused {s} {held} key now e h)) =
    refused-IsBalanced s held key now e h (Reachable-IsBalanced start (s, held) empty before)
Reachable-IsBalanced start x empty (by_step before (closes {s} front after key)) =
    closes-IsBalanced s front after key
      (Reachable-IsBalanced start (s, front ++ key ∷ after) empty before)
Reachable-IsBalanced start x empty (by_step before (sweeps {s} {held} older_than now)) =
    sweeps-IsBalanced s held older_than now (Reachable-IsBalanced start (s, held) empty before)
