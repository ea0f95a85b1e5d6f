-- ===== src/Server/MailStore/Rebuilding.antt =====
-- server/src/mailstore.rs: which rows of the index come back when a store is opened.
use dratchet.Base.{
  ℕ, ◌+◌, ◌≡◌, refl, Bool, false, not, ◌&&◌, none, some, [], ◌∷◌, Bytes, bytes_eq, arith, Map,
  length, length-append, filter, leb, eqb, if◌then◌else◌, Bool-cases, inl, inr, Option-cases,
  Result-cases, ◌∙◌,
}
use dratchet.Server.Storage.{Crates, IndexRecord, RestoredEntry, SealedContent}
use dratchet.Server.MailStore.{open_bytes, read_record}
use dratchet.Server.MailStore.Epochs.{
  Rebuilt, restore_row, rebuild_record, index_record, rebuild_row, rebuild,
}

module _ (c : Crates) (now : ℕ) (index : Bytes) where
  abbrev has_passed : Bytes → Bytes → Bool
  has_passed key value = elim (open_bytes c index key value) [
    | none ↦ false
    | some plaintext ↦ elim (c.records.from_cbor plaintext) [
      | none ↦ false
      | some entry ↦ leb entry.expires_at now
    ]
  ]

  -- A row that opens to the record of an expired message
  abbrev pub is_expired_row : Bytes × Bytes → Bool
  is_expired_row (key, value) = eqb (length key) 16 && has_passed key value

  -- The index's rows, less those of expired messages
  abbrev pub rows_due : Map Bytes Bytes → ℕ
  rows_due rows = length (filter (λ row. not (is_expired_row row)) rows)

  -- Of a step: it adds so many rows to those that were restored or dropped, under the same key.
  abbrev Counts : ℕ → Rebuilt → Rebuilt → Type 0
  Counts n r t =
      (t.dropped + length t.restored ≡ r.dropped + length r.restored + n)
      × (t.store.index ≡ r.store.index)

  restore_row-Counts :
      (key : Bytes) (entry : IndexRecord) (content : SealedContent) (r : Rebuilt)
      → Counts 1 r (restore_row c key entry content r)
  unfolding restore_row
  restore_row-Counts key entry content r =
      let it : RestoredEntry = record {
        mailbox_id = content.mailbox_id;
        entry_id = key;
        expires_at = content.expires_at;
        written_by = content.written_by;
      } in
      ground (arith, length-append r.restored (it ∷ []))

  rebuild_record-Counts :
      (key : Bytes) (entry : IndexRecord) (r : Rebuilt)
      → Counts (if leb entry.expires_at now then 0 else 1) r (rebuild_record c now key entry r)
  unfolding rebuild_record
  rebuild_record-Counts key entry r = elim (Bool-cases (leb entry.expires_at now)) [
    | inl expired ↦ rw (expired, rebuild_record) (omega arith, refl)
    | inr young ↦ elim (Result-cases (read_record c key entry r.store)) [
      | inl (content, reads) ↦
          rw (young, rebuild_record) (rw (reads) (restore_row-Counts key entry content r))
      | inr (e, fails) ↦ rw (young, rebuild_record) (rw (fails) (omega arith, refl))
    ]
  ]

  rebuild_row-Counts :
      (key value : Bytes) (r : Rebuilt)
      → r.store.index ≡ index
      → Counts (if is_expired_row (key, value) then 0 else 1) r (rebuild_row c now key value r)
  unfolding rebuild_row index_record
  rebuild_row-Counts key value r same = elim (Bool-cases (eqb (length key) 16)) [
    | inr wrong ↦ rw (wrong, rebuild_row) (omega arith, refl)
    | inl fits ↦ elim (Option-cases (open_bytes c index key value)) [
      | inl shut ↦
          let here : open_bytes c r.store.index key value ≡ none = rw same shut in
          rw (fits, rebuild_row) (rw here (rw (shut, has_passed) (omega arith, refl)))
      | inr (plaintext, opens) ↦
          let here : open_bytes c r.store.index key value ≡ some plaintext = rw same opens in
          elim (Option-cases (c.records.from_cbor plaintext)) [
            | inl garbled ↦
                rw (fits, rebuild_row)
                  (rw here (rw (opens, has_passed) (rw garbled (omega arith, refl))))
            | inr (entry, decodes) ↦
                rw (fits, rebuild_row)
                  (rw here
                    (rw (opens, has_passed) (rw decodes (rebuild_record-Counts key entry r))))
          ]
    ]
  ]

  pub rebuild_counts :
      (rows : Map Bytes Bytes) (r : Rebuilt)
      → r.store.index ≡ index
      → (rebuild c now rows r).dropped + length (rebuild c now rows r).restored
        ≡ r.dropped + length r.restored + rows_due rows
  unfolding rebuild filter
  rebuild_counts [] r same = omega arith
  rebuild_counts ((key, value) ∷ rows) r same =
      let (counted, kept) = rebuild_row-Counts key value r same in
      let rest = rebuild_counts rows (rebuild_row c now key value r) (kept ∙ same) in
      ground (arith, counted, rest)
