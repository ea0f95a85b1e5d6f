-- ===== src/Server/MailStore/Retained.antt =====
-- server/src/mailstore.rs: what `retain` removes, and that it leaves the live mail readable.
use dratchet.Base.{
  ℕ, zero, suc, ◌≡◌, refl, ap, ◌∙◌, true, false, not, none, some, List, [], ◌∷◌, Bytes, bytes_eq,
  nat_eq, pair_eq, arith, length, elem, filter, eqb, lookup, lookup-remove, remove, IsMap, ok,
  Option-cases, inl, inr, if◌then◌else◌, Map, Each, Bool-cases,
}
use dratchet.Server.MailStore.{manifest}
use dratchet.Server.Storage.{
  MailStore, Crates, Directory, IndexRecord, keys, read_file, remove_file,
}
use dratchet.Server.MailStore.{
  delete_fragments, drop_records, put_state, remove_rows, retain, read_fragments, read_record,
  read_envelope, seal_bytes,
}
use dratchet.Server.MailStore.Names.{fragment_eq, Apart}
use dratchet.Server.MailStore.Owned.{OwnsFragments}

read_file-remove_file :
    (i j : ℕ) (name other : Bytes) (dirs : List Directory)
    → fragment_eq.beq (i, name) (j, other) ≡ false
    → read_file j other (remove_file i name dirs) ≡ read_file j other dirs
unfolding read_file remove_file
read_file-remove_file i j name other [] h = refl
read_file-remove_file zero zero name other (dir ∷ dirs) h =
    ground (arith, lookup-remove other name dir)
read_file-remove_file zero (suc j) name other (dir ∷ dirs) h = refl
read_file-remove_file (suc i) zero name other (dir ∷ dirs) h = refl
read_file-remove_file (suc i) (suc j) name other (dir ∷ dirs) h =
    read_file-remove_file i j name other dirs
      (ground (arith, nat_eq.decides i j, nat_eq.decides (suc i) (suc j)))

length-remove_file :
    (i : ℕ) (name : Bytes) (dirs : List Directory) → length (remove_file i name dirs) ≡ length dirs
unfolding remove_file
length-remove_file i name [] = refl
length-remove_file zero name (dir ∷ dirs) = refl
length-remove_file (suc i) name (dir ∷ dirs) = ap suc (length-remove_file i name dirs)

module _ (c : Crates) where
  read_fragments-remove_file :
      (f : ℕ × Bytes) (fragments gone : List (ℕ × Bytes)) (dirs : List Directory)
      → Apart fragments (f ∷ gone)
      → read_fragments c fragments (remove_file f.0 f.1 dirs) ≡ read_fragments c fragments dirs
  unfolding read_fragments elem
  read_fragments-remove_file f [] gone dirs h = refl
  read_fragments-remove_file f (g ∷ fragments) gone dirs h =
      let same : read_file g.0 g.1 (remove_file f.0 f.1 dirs) ≡ read_file g.0 g.1 dirs =
        read_file-remove_file f.0 g.0 f.1 g.1 dirs (ground (arith, h.0)) in
      let rest = read_fragments-remove_file f fragments gone dirs h.1 in
      ground (arith, length-remove_file f.0 f.1 dirs, same, rest)

  Apart-tail :
      (f : ℕ × Bytes) (fragments gone : List (ℕ × Bytes))
      → Apart fragments (f ∷ gone)
      → Apart fragments gone
  unfolding elem
  Apart-tail f [] gone h = tt
  Apart-tail f (g ∷ fragments) gone h = (ground (arith, h.0), Apart-tail f fragments gone h.1)

  read_fragments-delete :
      (fragments gone : List (ℕ × Bytes)) (dirs : List Directory)
      → Apart fragments gone
      → read_fragments c fragments (delete_fragments c gone dirs) ≡ read_fragments c fragments dirs
  unfolding delete_fragments
  read_fragments-delete fragments [] dirs h = refl
  read_fragments-delete fragments (g ∷ gone) dirs h =
      read_fragments-delete fragments gone (remove_file g.0 g.1 dirs)
        (Apart-tail g fragments gone h)
      ∙ read_fragments-remove_file g fragments gone dirs h

  read_fragments-drop_records :
      (fragments : List (ℕ × Bytes)) (gone : List (Bytes × IndexRecord)) (s : MailStore)
      → Each (λ g. Apart fragments g.1.fragments) gone
      → read_fragments c fragments (drop_records c gone s).dirs ≡ read_fragments c fragments s.dirs
  unfolding drop_records
  read_fragments-drop_records fragments [] s h = refl
  read_fragments-drop_records fragments (g ∷ gone) s h =
      read_fragments-drop_records fragments gone
        (record s {
          records = remove g.0 s.records;
          dirs = delete_fragments c g.1.fragments s.dirs;
        })
        h.1
      ∙ read_fragments-delete fragments g.1.fragments s.dirs h.0

  drop_records-seal :
      (gone : List (Bytes × IndexRecord)) (s : MailStore) → (drop_records c gone s).seal ≡ s.seal
  unfolding drop_records
  drop_records-seal [] s = refl
  drop_records-seal (g ∷ gone) s = drop_records-seal gone _

  lookup-drop_records :
      (id : Bytes) (gone : List (Bytes × IndexRecord)) (s : MailStore)
      → lookup id (drop_records c gone s).records
        ≡ (if elem id (keys gone) then none else lookup id s.records)
  unfolding drop_records elem
  lookup-drop_records id [] s = refl
  lookup-drop_records id (g ∷ gone) s =
      let s1 : MailStore = record s {
        records = remove g.0 s.records;
        dirs = delete_fragments c g.1.fragments s.dirs;
      } in
      lookup-drop_records id gone s1 ∙ ground (arith, lookup-remove id g.0 s.records)

  module _ (live : List Bytes) where
    abbrev gone_of : Map Bytes IndexRecord → List (Bytes × IndexRecord)
    gone_of = filter (λ entry. not (elem entry.0 live))

    elem-gone_of :
        (id : Bytes) (m : Map Bytes IndexRecord)
        → elem id live ≡ true
        → elem id (keys (gone_of m)) ≡ false
    unfolding elem filter
    elem-gone_of id [] h = refl
    elem-gone_of id ((k, v) ∷ m) h =
        ground (arith, elem-gone_of id m h, ap (λ k. elem k live), bytes_eq.decides k id)

    lookup-gone_of :
        (id : Bytes) (m : Map Bytes IndexRecord)
        → elem id live ≡ false
        → (if elem id (keys (gone_of m)) then none else lookup id m) ≡ none
    unfolding elem filter lookup
    lookup-gone_of id [] h = refl
    lookup-gone_of id ((k, v) ∷ m) h =
        ground (arith, lookup-gone_of id m h, ap (λ k. elem k live), bytes_eq.decides k id)

    gone-Apart :
        (id : Bytes) (entry : IndexRecord) (whole m : Map Bytes IndexRecord) (dirs : List Directory)
        → OwnsFragments whole dirs
        → lookup id whole ≡ some entry
        → elem id live ≡ true
        → IsMap m
        → ((j : Bytes) (b : IndexRecord) → lookup j m ≡ some b → lookup j whole ≡ some b)
        → Each (λ g. Apart entry.fragments g.1.fragments) (gone_of m)
    unfolding filter lookup
    gone-Apart id entry whole [] dirs o found alive u sub = tt
    gone-Apart id entry whole ((k, v) ∷ m) dirs o found alive u sub =
        let rest =
          gone-Apart id entry whole m dirs o found alive u.1
            (λ j b here. sub j b (ground (arith, here, u.0, bytes_eq.decides k j))) in
        elim (Bool-cases (elem k live)) [
          | inl kept ↦ rw (kept, filter) rest
          | inr left ↦
              rw (left, filter)
                (
                  o.apart id k entry v found (sub k v (ground (arith, bytes_eq.decides k k)))
                      (ground (arith, left, alive, bytes_eq.decides id k, ap (λ k. elem k live))),
                  rest,
                )
        ]

    no_items : (gone : List (Bytes × IndexRecord)) → eqb (length gone) 0 ≡ true → gone ≡ []
    no_items [] h = refl
    no_items (g ∷ gone) h = absurd (ground arith)

    -- What `retain` leaves: the records that are gone dropped from a state with the same mail
    record Drops (s : MailStore) : Type 0 where
      base : MailStore
      drops : (retain c live s).1 ≡ drop_records c (gone_of s.records) base
      records : base.records ≡ s.records
      dirs : base.dirs ≡ s.dirs
      seal : base.seal ≡ s.seal

    retain-Drops : (s : MailStore) → Drops s
    unfolding retain put_state seal_bytes drop_records
    retain-Drops s = elim (Bool-cases (eqb (length (gone_of s.records)) 0)) [
      | inl empty ↦ record {
        base = s;
        drops = rw (empty, retain) (rw (no_items (gone_of s.records) empty) refl);
        records = refl;
        dirs = refl;
        seal = refl;
      }
      | inr some_gone ↦ record {
        base =
            put_state c s.epoch false
              (manifest c (keys (filter (λ entry. elem entry.0 live) s.records)))
              (record s { index_table = remove_rows c (keys (gone_of s.records)) s.index_table });
        drops = rw (some_gone, retain) refl;
        records = refl;
        dirs = refl;
        seal = refl;
      }
    ]

    -- The index after `retain` has exactly the records of the ids that are live.
    pub lookup-retain :
        (id : Bytes) (s : MailStore)
        → lookup id (retain c live s).1.records
          ≡ (if elem id live then lookup id s.records else none)
    lookup-retain id s =
        let d = retain-Drops s in
        let gone = gone_of s.records in
        ap (λ t. lookup id t.records) d.drops
        ∙ lookup-drop_records id gone d.base
        ∙ ap (λ m. if elem id (keys gone) then none else lookup id m) d.records
        ∙ elim (Bool-cases (elem id live)) [
          | inl kept ↦ rw (elem-gone_of id s.records kept) (rw kept refl)
          | inr left ↦ lookup-gone_of id s.records left ∙ rw left refl
        ]

    read_record-retain :
        (id : Bytes) (entry : IndexRecord) (s : MailStore)
        → OwnsFragments s.records s.dirs
        → lookup id s.records ≡ some entry
        → elem id live ≡ true
        → read_record c id entry (retain c live s).1 ≡ read_record c id entry s
    unfolding read_record
    read_record-retain id entry s o found alive =
        let d = retain-Drops s in
        let gone = gone_of s.records in
        let apart =
          gone-Apart id entry s.records s.records s.dirs o found alive o.is_map (λ j b h. h) in
        let read : read_fragments c entry.fragments (retain c live s).1.dirs
            ≡ read_fragments c entry.fragments s.dirs =
          ap (λ t. read_fragments c entry.fragments t.dirs) d.drops
          ∙ read_fragments-drop_records entry.fragments gone d.base apart
          ∙ ap (read_fragments c entry.fragments) d.dirs in
        let seal : (retain c live s).1.seal ≡ s.seal =
          ap (λ t. t.seal) d.drops ∙ drop_records-seal gone d.base ∙ d.seal in
        ground (arith, read, seal)

    -- In an index whose records own their fragments, `retain` leaves what is read of every live entry as it
    -- was, and forgets every other entry.
    pub read_envelope-retain :
        (id : Bytes) (s : MailStore)
        → OwnsFragments s.records s.dirs
        → read_envelope c id (retain c live s).1
          ≡ (if elem id live then read_envelope c id s else ok none)
    unfolding read_envelope
    read_envelope-retain id s o = elim (Bool-cases (elem id live)) [
      | inr left ↦ rw (lookup-retain id s, read_envelope) (rw left refl)
      | inl kept ↦ elim (Option-cases (lookup id s.records)) [
        | inl absent ↦
            rw (lookup-retain id s, read_envelope) (rw kept (rw (absent, read_envelope) refl))
        | inr (entry, found) ↦
            let same = read_record-retain id entry s o found kept in
            rw (lookup-retain id s, read_envelope)
              (rw kept (rw (found, read_envelope) (rw same refl)))
      ]
    ]
