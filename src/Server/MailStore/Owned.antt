-- ===== src/Server/MailStore/Owned.antt =====
-- server/src/mailstore.rs: every index record has fragments of its own.
use dratchet.Base.{
  ℕ, zero, suc, ◌+◌, ◌*◌, ◌%◌, ◌≤◌, ◌≡◌, ◌⊎◌, refl, min, true, false, none, some, List, [], ◌∷◌,
  Bytes, bytes_eq, nat_eq, pair_eq, arith, length, slice, lookup, insert, lookup-insert,
  insert-IsMap, IsMap, ok, Option-cases, inl, inr, ◌==◌, Map, Bool-cases,
}
use dratchet.Base.Endings.{Ends, done, failed, Ends-next, Ends-ok, Ends-both}
use dratchet.Server.Storage.{
  MailStore, Crates, Directory, PendingEntry, IndexRecord, div_ceil, read_file,
}
use dratchet.Server.MailStore.{
  seal_bytes, uuid_v4, write_private, write_fragments, save_entry, save_entries, insert_records,
  commit_save, save,
}
use dratchet.Server.MailStore.Fragments.{
  Keeps, Keeps-refl, Writes, Writes-refl, Writes-trans, write_private-Writes,
}
use dratchet.Server.MailStore.Reading.{content_of}
use dratchet.Server.MailStore.Saved.{commit_save-Keeps}
use dratchet.Server.MailStore.Names.{
  fragment_eq, AllTaken, AllFree, Apart, AllTaken-Keeps, AllFree-Keeps, free-Apart, taken-Apart,
}

-- In an index, every record's fragments are files, and two records share none.
pub record OwnsFragments (records : Map Bytes IndexRecord) (dirs : List Directory) : Type 0 where
  pub is_map : IsMap records
  pub taken : (j : Bytes) (b : IndexRecord) → lookup j records ≡ some b → AllTaken b.fragments dirs
  pub apart :
      (i j : Bytes) (a b : IndexRecord)
      → lookup i records ≡ some a
      → lookup j records ≡ some b
      → (i == j) ≡ false
      → Apart a.fragments b.fragments

OwnsFragments-Keeps :
    (records : Map Bytes IndexRecord) (before after : List Directory)
    → Keeps before after
    → OwnsFragments records before
    → OwnsFragments records after
OwnsFragments-Keeps records before after kept o = record {
  is_map = o.is_map;
  taken = λ j b found. AllTaken-Keeps before after b.fragments kept (o.taken j b found);
  apart = o.apart;
}

module _ (c : Crates) where
  write_private-free :
      (i : ℕ) (name bytes : Bytes) (s : MailStore)
      → Ends (λ u t. read_file i name s.dirs ≡ none) (write_private c i name bytes s)
  unfolding write_private
  write_private-free i name bytes s = elim (Option-cases (read_file i name s.dirs)) [
    | inl free ↦ rw (free, write_private) (done refl)
    | inr (found, e) ↦ rw (e, write_private) failed
  ]

  -- What a step of a save writes was free before it.
  IsFresh : List (ℕ × Bytes) → MailStore → MailStore → Type 0
  IsFresh fragments s t = Writes s t × AllFree fragments s.dirs × AllTaken fragments t.dirs

  write_fragments-IsFresh :
      (left i chunk : ℕ) (sealed : Bytes) (s : MailStore)
      → i + left ≡ length s.dirs
      → length s.dirs ≤ 256
      → Ends (λ fragments t. IsFresh fragments s t) (write_fragments c left i chunk sealed s)
  unfolding write_fragments uuid_v4 IsFresh
  write_fragments-IsFresh zero i chunk sealed s n few = done (Writes-refl s, tt, tt)
  write_fragments-IsFresh (suc left) i chunk sealed s n few =
      let uuid = (uuid_v4 c s).0 in
      let s1 = (uuid_v4 c s).1 in
      let drawn : Writes s s1 = record {
        dirs = Keeps-refl s.dirs;
        seal = refl;
        records = refl;
        epoch = refl;
      } in
      let piece =
        slice (min (i * chunk) (length sealed)) (min ((i + 1) * chunk) (length sealed)) sealed in
      let small : i % 256 ≡ i = omega arith in
      Ends-next
        (Ends-both (write_private-Writes c i uuid piece s1 (omega arith))
          (write_private-free i uuid piece s1))
        (λ u ((w, placed), free).
          let s2 = (write_private c i uuid piece s1).1 in
          Ends-next
            (write_fragments-IsFresh left (i + 1) chunk sealed s2
              (omega (arith, w.dirs.same_length)) (omega (arith, w.dirs.same_length)))
            (λ rest (kept, rest_free, rest_taken).
              let t = (write_fragments c left (i + 1) chunk sealed s2).1 in
              done (
                Writes-trans s s1 t drawn (Writes-trans s1 s2 t w kept),
                (rw small (rw free refl), AllFree-Keeps s.dirs s2.dirs rest w.dirs rest_free),
                (rw small (rw (kept.dirs.files i uuid piece placed) refl), rest_taken),
              )))

  found_in_insert :
      (id j : Bytes) (entry b : IndexRecord) (m : Map Bytes IndexRecord)
      → lookup j (insert id entry m) ≡ some b
      → ((id == j) ≡ true) × (b ≡ entry) ⊎ (lookup j m ≡ some b)
  found_in_insert id j entry b m h = elim (Bool-cases (id == j)) [
    | inl same ↦ inl (same, ground (arith, same, lookup-insert j id entry m))
    | inr other ↦ inr (ground (arith, other, lookup-insert j id entry m))
  ]

  insert-OwnsFragments :
      (id : Bytes) (entry : IndexRecord) (m : Map Bytes IndexRecord) (s t : MailStore)
      → IsFresh entry.fragments s t
      → OwnsFragments m s.dirs
      → OwnsFragments (insert id entry m) t.dirs
  unfolding IsFresh
  insert-OwnsFragments id entry m s t (w, free, taken) o =
      let kept = w.dirs in
      record {
        is_map = insert-IsMap id entry m o.is_map;
        taken = λ j b found. elim (found_in_insert id j entry b m found) [
          | inl (same, e) ↦ rw e taken
          | inr old ↦ AllTaken-Keeps s.dirs t.dirs b.fragments kept (o.taken j b old)
        ];
        apart = λ i j a b fi fj other. elim (found_in_insert id i entry a m fi) [
          | inl (same_i, e) ↦ elim (found_in_insert id j entry b m fj) [
            | inl (same_j, _) ↦
                absurd (
                  ground
                    (arith, bytes_eq.decides id i, bytes_eq.decides id j, bytes_eq.decides i j))
            | inr old ↦ rw e (free-Apart s.dirs entry.fragments b.fragments free (o.taken j b old))
          ]
          | inr old_i ↦ elim (found_in_insert id j entry b m fj) [
            | inl (same_j, e) ↦
                rw e (taken-Apart s.dirs a.fragments entry.fragments (o.taken i a old_i) free)
            | inr old_j ↦ o.apart i j a b old_i old_j other
          ]
        ];
      }

  save_entry-IsFresh :
      (e : PendingEntry) (s : MailStore)
      → length s.dirs ≤ 256
      → Ends (λ row t. IsFresh row.1.fragments s t) (save_entry c e s)
  unfolding save_entry seal_bytes IsFresh
  save_entry-IsFresh e s few =
      let (sealed, drawn) = seal_bytes c s.seal e.entry_id (c.contents.to_cbor (content_of e)) s in
      let n = length s.dirs in
      let step : Writes s drawn = record {
        dirs = Keeps-refl s.dirs;
        seal = refl;
        records = refl;
        epoch = refl;
      } in
      Ends-next
        (write_fragments-IsFresh n 0 (div_ceil (length sealed) n) sealed drawn (omega arith) few)
        (λ fragments (w, free, taken). done (Writes-trans s drawn _ step w, free, taken))

  -- The new rows, entered into any index whose records own their fragments
  abbrev Adds : List (Bytes × IndexRecord) → MailStore → MailStore → Type 0
  Adds rows s t =
      Writes s t
      × ((m : Map Bytes IndexRecord)
          → OwnsFragments m s.dirs
          → OwnsFragments (insert_records c rows m) t.dirs)

  save_entries-Adds :
      (batch : List PendingEntry) (s : MailStore)
      → length s.dirs ≤ 256
      → Ends (λ rows t. Adds rows s t) (save_entries c batch s)
  unfolding save_entries insert_records IsFresh
  save_entries-Adds [] s few = done (Writes-refl s, λ m o. o)
  save_entries-Adds (e ∷ batch) s few =
      let t = (save_entry c e s).1 in
      let u = (save_entries c batch t).1 in
      Ends-next (save_entry-IsFresh e s few) (λ row fresh.
        Ends-next (save_entries-Adds batch t (omega (arith, fresh.0.dirs.same_length)))
          (λ rows (kept, adds). done (
            Writes-trans s t u fresh.0 kept,
            λ m o. adds (insert row.0 row.1 m) (insert-OwnsFragments row.0 row.1 m s t fresh o),
          )))

  save_owns :
      (batch : List PendingEntry) (s : MailStore)
      → length s.dirs ≤ 256
      → OwnsFragments s.records s.dirs
      → Ends (λ u t. OwnsFragments t.records t.dirs) (save c batch s)
  unfolding save
  save_owns [] s few o = done o
  save_owns (e ∷ batch) s few o =
      let s1 = (save_entries c (e ∷ batch) s).1 in
      Ends-next (save_entries-Adds (e ∷ batch) s few) (λ rows (w, adds).
        let t = commit_save c rows s1 in
        let (kept, seal, records) = commit_save-Keeps c rows s1 in
        done (
          rw records (
            OwnsFragments-Keeps (insert_records c rows s1.records) s1.dirs t.dirs kept
              (adds s1.records (rw w.records o)))))

  -- With at most 256 directories, a save that succeeds keeps the index well formed: each entry has one record, each
  -- record's fragments are files, and no two records share one.
  pub save-OwnsFragments :
      (batch : List PendingEntry) (s t : MailStore)
      → length s.dirs ≤ 256
      → OwnsFragments s.records s.dirs
      → save c batch s ≡ (ok tt, t)
      → OwnsFragments t.records t.dirs
  save-OwnsFragments batch s t few o saved = Ends-ok (save_owns batch s few o) saved
