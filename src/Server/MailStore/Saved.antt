-- ===== src/Server/MailStore/Saved.antt =====
-- server/src/mailstore.rs: a whole batch, saved and read back.
use dratchet.Base.{
  ◌≤◌, ◌≡◌, refl, ap, ◌∙◌, false, some, List, [], ◌∷◌, Bytes, bytes_eq, arith, length, map, elem,
  lookup, insert, lookup-insert, ok, Map, Each,
}
use dratchet.Base.Endings.{Ends, done, Ends-next, Ends-ok}
use dratchet.Base.Codecs.{Decodes}
use dratchet.Server.Storage.{MailStore, Crates, PendingEntry, IndexRecord}
use dratchet.Server.MailStore.{
  read_envelope, save_entry, save_entries, insert_records, insert_rows, put_state, commit_save,
  save, seal_bytes,
}
use dratchet.Server.MailStore.Fragments.{Keeps, Keeps-trans, Writes, Writes-refl, Writes-trans}
use dratchet.Server.MailStore.Reading.{
  IsSound, content_of, IsSaved, IsSaved-kept, read_record-IsSaved, read_envelope_found,
  read_envelope_kept, save_entry-IsSaved,
}

abbrev pub ids : List PendingEntry → List Bytes
ids = map (λ e. e.entry_id)

-- No two entries have the same id.
abbrev pub Distinct : List PendingEntry → Type 0
Distinct [] = Unit
Distinct (e ∷ batch) = (elem e.entry_id (ids batch) ≡ false) × Distinct batch

pub data AreSaved (c : Crates) (s : MailStore)
    : List PendingEntry → List (Bytes × IndexRecord) → Type 0 where
  none_saved : AreSaved c s [] []
  one_saved :
      {e : PendingEntry} {row : Bytes × IndexRecord} {batch : List PendingEntry}
      {rows : List (Bytes × IndexRecord)}
      → IsSaved c e row s
      → AreSaved c s batch rows
      → AreSaved c s (e ∷ batch) (row ∷ rows)

module _ (c : Crates) where
  AreSaved-Writes :
      (s t : MailStore) {batch : List PendingEntry} {rows : List (Bytes × IndexRecord)}
      → Writes s t
      → AreSaved c s batch rows
      → AreSaved c t batch rows
  AreSaved-Writes s t w none_saved = none_saved
  AreSaved-Writes s t w (one_saved saved rest) =
      one_saved (IsSaved-kept c _ _ s t w.dirs w.seal saved) (AreSaved-Writes s t w rest)

  save_entries-AreSaved :
      (sound : IsSound c) (batch : List PendingEntry) (s : MailStore)
      → 1 ≤ length s.dirs
      → length s.dirs ≤ 256
      → Each (λ e. Decodes c.contents (content_of e)) batch
      → Ends (λ rows t. Writes s t × AreSaved c t batch rows) (save_entries c batch s)
  unfolding save_entries
  save_entries-AreSaved sound [] s some_dirs few decodes = done (Writes-refl s, none_saved)
  save_entries-AreSaved sound (e ∷ batch) s some_dirs few (decodes, rest_decode) =
      let t = (save_entry c e s).1 in
      let u = (save_entries c batch t).1 in
      Ends-next (save_entry-IsSaved c sound e s some_dirs few decodes) (λ row (w, saved).
        Ends-next
          (save_entries-AreSaved sound batch t (omega (arith, w.dirs.same_length))
            (omega (arith, w.dirs.same_length)) rest_decode)
          (λ rows (w', rest). done (
            Writes-trans s t u w w',
            one_saved (IsSaved-kept c e row t u w'.dirs w'.seal saved) rest,
          )))

  insert_rows-Writes :
      (rows : List (Bytes × IndexRecord)) (s : MailStore) → Writes s (insert_rows c rows s)
  unfolding insert_rows seal_bytes
  insert_rows-Writes [] s = Writes-refl s
  insert_rows-Writes ((id, entry) ∷ rows) s =
      let (value, drawn) = seal_bytes c s.index id (c.records.to_cbor entry) s in
      let s1 : MailStore = record drawn { index_table = insert id value drawn.index_table } in
      let step : Writes s s1 = record {
        dirs = (Writes-refl s).dirs;
        seal = refl;
        records = refl;
        epoch = refl;
      } in
      Writes-trans s s1 (insert_rows c rows s1) step (insert_rows-Writes rows s1)

  pub commit_save-Keeps :
      (rows : List (Bytes × IndexRecord)) (s : MailStore)
      → Keeps s.dirs (commit_save c rows s).dirs
        × ((commit_save c rows s).seal ≡ s.seal)
        × ((commit_save c rows s).records ≡ insert_records c rows s.records)
  unfolding commit_save put_state seal_bytes
  commit_save-Keeps rows s = let w = insert_rows-Writes rows s in (w.dirs, w.seal, refl)

  lookup-insert_records :
      (id : Bytes) (s : MailStore) {batch : List PendingEntry} {rows : List (Bytes × IndexRecord)}
      (m : Map Bytes IndexRecord)
      → AreSaved c s batch rows
      → elem id (ids batch) ≡ false
      → lookup id (insert_records c rows m) ≡ lookup id m
  unfolding insert_records elem
  lookup-insert_records id s m none_saved absent = refl
  lookup-insert_records id s m (one_saved {row} saved rest) absent =
      lookup-insert_records id s (insert row.0 row.1 m) rest (ground arith)
      ∙ ground (arith, lookup-insert id row.0 row.1 m, saved.id)

  found-AreSaved :
      (s t : MailStore) {batch : List PendingEntry} {rows : List (Bytes × IndexRecord)}
      (m : Map Bytes IndexRecord)
      → AreSaved c s batch rows
      → Distinct batch
      → Keeps s.dirs t.dirs
      → t.seal ≡ s.seal
      → t.records ≡ insert_records c rows m
      → Each (λ e. read_envelope c e.entry_id t ≡ ok (some e.envelope)) batch
  unfolding insert_records
  found-AreSaved s t m none_saved apart kept seal records = tt
  found-AreSaved s t m (one_saved {e} {row} saved rest) (fresh, apart) kept seal records =
      let m1 = insert row.0 row.1 m in
      let found : lookup e.entry_id t.records ≡ some row.1 =
        ap (lookup e.entry_id) records
        ∙ lookup-insert_records e.entry_id s m1 rest fresh
        ∙ ground (
          arith,
          lookup-insert e.entry_id row.0 row.1 m,
          bytes_eq.decides row.0 e.entry_id,
          saved.id,
        ) in
      let still = IsSaved-kept c e row s t kept seal saved in
      (
        read_envelope_found c e.entry_id row.1 (content_of e) t found
            (read_record-IsSaved c e row t still),
        found-AreSaved s t m1 rest apart kept seal records,
      )

  -- After a save from `s` to `t`
  abbrev Reads : List PendingEntry → MailStore → MailStore → Type 0
  Reads batch s t =
      Each (λ e. read_envelope c e.entry_id t ≡ ok (some e.envelope)) batch
      × ((id envelope : Bytes)
          → elem id (ids batch) ≡ false
          → read_envelope c id s ≡ ok (some envelope)
          → read_envelope c id t ≡ ok (some envelope))

  save-Reads :
      IsSound c
      → (batch : List PendingEntry) (s : MailStore) → 1 ≤ length s.dirs
      → length s.dirs ≤ 256
      → Each (λ e. Decodes c.contents (content_of e)) batch
      → Distinct batch
      → Ends (λ u t. Reads batch s t) (save c batch s)
  unfolding save
  save-Reads sound [] s some_dirs few decodes apart = done (tt, λ id envelope absent h. h)
  save-Reads sound (e ∷ batch) s some_dirs few decodes apart =
      let s1 = (save_entries c (e ∷ batch) s).1 in
      Ends-next (save_entries-AreSaved sound (e ∷ batch) s some_dirs few decodes)
        (λ rows (w, saved).
          let t = commit_save c rows s1 in
          let (kept, seal, records) = commit_save-Keeps rows s1 in
          done (
            found-AreSaved s1 t s1.records saved apart kept seal records,
            λ id envelope absent h.
                read_envelope_kept c id envelope s t (Keeps-trans s.dirs s1.dirs t.dirs w.dirs kept)
                  (seal ∙ w.seal)
                  (ap (lookup id) records
                    ∙ lookup-insert_records id s1 s1.records saved absent
                    ∙ ap (lookup id) w.records)
                  h,
          ))

  module _ (sound : IsSound c) (batch : List PendingEntry) (s t : MailStore)
      (some_dirs : 1 ≤ length s.dirs) (few : length s.dirs ≤ 256)
      (decodes : Each (λ e. Decodes c.contents (content_of e)) batch) (apart : Distinct batch)
      (saved : save c batch s ≡ (ok tt, t)) where
    -- With a sound AEAD, between 1 and 256 directories and a batch of entries with different ids whose
    -- encoded contents decode, a save that succeeds makes every entry of the batch readable with its
    -- envelope.
    pub read_envelope-save : Each (λ e. read_envelope c e.entry_id t ≡ ok (some e.envelope)) batch
    read_envelope-save = (Ends-ok (save-Reads sound batch s some_dirs few decodes apart) saved).0

    -- Under the same conditions, the envelope that could be read of any other entry before the save is
    -- read after it.
    pub read_envelope-save_other :
        (id envelope : Bytes)
        → elem id (ids batch) ≡ false
        → read_envelope c id s ≡ ok (some envelope)
        → read_envelope c id t ≡ ok (some envelope)
    read_envelope-save_other =
        (Ends-ok (save-Reads sound batch s some_dirs few decodes apart) saved).1
