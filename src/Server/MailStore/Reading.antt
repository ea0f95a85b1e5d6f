-- ===== src/Server/MailStore/Reading.antt =====
-- server/src/mailstore.rs: what a batch that was saved is read back as.
use dratchet.Base.{
  ℕ, ◌+◌, ◌-◌, ◌*◌, ◌≤◌, ◌≡◌, refl, ap, ◌∙◌, min, true, some, List, Bytes, bytes_eq, arith, length,
  drop, lookup, ok, take_exact, drop_past, length-append, Option-cases, Result-cases, inl, inr,
}
use native.Mathlib.Nat.{lt-div-mul-add}
use dratchet.Base.Endings.{Ends, done, Ends-next}
use dratchet.Base.Codecs.{Decodes}
use dratchet.Server.Storage.{
  MailStore, Crates, PendingEntry, SealedContent, IndexRecord, div_ceil, nonce_len,
}
use dratchet.Server.MailStore.{
  seal_bytes, open_bytes, write_fragments, read_fragments, open_sealed, matches, read_record,
  read_envelope, save_entry,
}
use dratchet.Server.MailStore.Fragments.{
  Keeps, Writes, Writes-refl, Writes-trans, read_fragments-Keeps, write_fragments-Writes,
}

-- The documented behaviour of the AEAD and of the random source: what is sealed opens again under the
-- same key, nonce and data, and a nonce has its length.
pub record IsSound (c : Crates) : Type 0 where
  pub seals :
      (key nonce aad m : Bytes)
      → (sealed : Bytes) × (c.primitives.seal key nonce aad m ≡ some sealed)
        × (c.primitives.unseal key nonce aad sealed ≡ some m)
  pub draws_length : (n : ℕ) → length (c.random n nonce_len) ≡ nonce_len

-- What `save` seals for an entry
abbrev pub content_of : PendingEntry → SealedContent
content_of e = record {
  mailbox_id = e.mailbox_id;
  entry_id = e.entry_id;
  envelope = e.envelope;
  expires_at = e.expires_at;
  written_by = e.written_by;
}

module _ (c : Crates) (sound : IsSound c) where
  pub open_bytes-seal_bytes :
      (cipher aad plaintext : Bytes) (s : MailStore)
      → open_bytes c cipher aad (seal_bytes c cipher aad plaintext s).0 ≡ some plaintext
  unfolding open_bytes seal_bytes
  open_bytes-seal_bytes cipher aad plaintext s =
      let nonce = c.random s.draws nonce_len in
      let long : length nonce ≡ nonce_len = sound.draws_length s.draws in
      let (sealed, e, opens) = sound.seals cipher nonce aad plaintext in
      rw e (
        ground (
          arith,
          take_exact nonce_len nonce sealed long,
          drop_past nonce_len 0 nonce sealed long,
          length-append nonce sealed,
          long,
          opens,
        ))

-- In a state, the row of an entry's index record is that of what `save` sealed for it.
pub record IsSaved (c : Crates) (e : PendingEntry) (row : Bytes × IndexRecord) (s : MailStore)
    : Type 0 where
  pub id : row.0 ≡ e.entry_id
  pub sealed : Bytes
  pub reads : read_fragments c row.1.fragments s.dirs ≡ ok sealed
  pub opens : open_sealed c s.seal e.entry_id row.1 sealed ≡ ok (content_of e)

div_ceil_covers : (a n : ℕ) → 1 ≤ n → a ≤ n * div_ceil a n
div_ceil_covers a n h = omega (arith, lt-div-mul-add {a = a + n - 1} {b = n} h)

module _ (c : Crates) where
  pub IsSaved-kept :
      (e : PendingEntry) (row : Bytes × IndexRecord) (s t : MailStore)
      → Keeps s.dirs t.dirs
      → t.seal ≡ s.seal
      → IsSaved c e row s
      → IsSaved c e row t
  IsSaved-kept e row s t kept seal saved = record {
    id = saved.id;
    sealed = saved.sealed;
    reads = read_fragments-Keeps c row.1.fragments s.dirs t.dirs saved.sealed kept saved.reads;
    opens = rw seal saved.opens;
  }

  pub read_record-IsSaved :
      (e : PendingEntry) (row : Bytes × IndexRecord) (s : MailStore)
      → IsSaved c e row s
      → read_record c e.entry_id row.1 s ≡ ok (content_of e)
  unfolding read_record
  read_record-IsSaved e row s saved = rw (saved.reads, read_record) saved.opens

  pub read_envelope_found :
      (id : Bytes) (entry : IndexRecord) (content : SealedContent) (s : MailStore)
      → lookup id s.records ≡ some entry
      → read_record c id entry s ≡ ok content
      → read_envelope c id s ≡ ok (some content.envelope)
  unfolding read_envelope
  read_envelope_found id entry content s found reads = rw (found, read_envelope) (rw reads refl)

  read_record_kept :
      (id : Bytes) (entry : IndexRecord) (content : SealedContent) (s t : MailStore)
      → Keeps s.dirs t.dirs
      → t.seal ≡ s.seal
      → read_record c id entry s ≡ ok content
      → read_record c id entry t ≡ ok content
  unfolding read_record
  read_record_kept id entry content s t kept seal h =
      elim (Result-cases (read_fragments c entry.fragments s.dirs)) [
        | inl (sealed, e) ↦
            let still = read_fragments-Keeps c entry.fragments s.dirs t.dirs sealed kept e in
            ground (arith, e, still, seal)
        | inr (e, error) ↦ absurd (ground (arith, error))
      ]

  -- What could be read of an entry that a step leaves in the index can be read after it.
  pub read_envelope_kept :
      (id envelope : Bytes) (s t : MailStore)
      → Keeps s.dirs t.dirs
      → t.seal ≡ s.seal
      → lookup id t.records ≡ lookup id s.records
      → read_envelope c id s ≡ ok (some envelope)
      → read_envelope c id t ≡ ok (some envelope)
  unfolding read_envelope
  read_envelope_kept id envelope s t kept seal same h = elim (Option-cases (lookup id s.records)) [
    | inl absent ↦ absurd (ground (arith, absent))
    | inr (entry, found) ↦ elim (Result-cases (read_record c id entry s)) [
      | inl (content, reads) ↦
          let still = read_record_kept id entry content s t kept seal reads in
          ground (arith, found, reads, still, same)
      | inr (e, error) ↦ absurd (ground (arith, found, error))
    ]
  ]

  module _ (sound : IsSound c) where
    open_sealed-ok :
        (seal entry_id sealed plaintext : Bytes) (entry : IndexRecord) (content : SealedContent)
        → c.sha256 sealed ≡ entry.checksum
        → open_bytes c seal entry_id sealed ≡ some plaintext
        → c.contents.from_cbor plaintext ≡ some content
        → matches c entry_id entry content ≡ true
        → open_sealed c seal entry_id entry sealed ≡ ok content
    unfolding open_sealed
    open_sealed-ok seal entry_id sealed plaintext entry content sum opens decodes same =
        ground (arith, sum, opens, decodes, same, bytes_eq.decides (c.sha256 sealed) entry.checksum)

    matches-content_of :
        (e : PendingEntry) (fragments : List (ℕ × Bytes)) (checksum : Bytes)
        → matches c e.entry_id
            (record {
              mailbox_id = e.mailbox_id;
              expires_at = e.expires_at;
              written_by = e.written_by;
              fragments = fragments;
              checksum = checksum;
            })
            (content_of e)
          ≡ true
    matches-content_of e fragments checksum = ground (
      arith,
      bytes_eq.decides e.entry_id e.entry_id,
      bytes_eq.decides e.mailbox_id e.mailbox_id,
      bytes_eq.decides e.written_by e.written_by,
    )

    open_sealed_saved :
        (e : PendingEntry) (s : MailStore) (fragments : List (ℕ × Bytes))
        → Decodes c.contents (content_of e)
        → let sealed = (seal_bytes c s.seal e.entry_id (c.contents.to_cbor (content_of e)) s).0 in
          open_sealed c s.seal e.entry_id
            (record {
              mailbox_id = e.mailbox_id;
              expires_at = e.expires_at;
              written_by = e.written_by;
              fragments = fragments;
              checksum = c.sha256 sealed;
            })
            sealed
          ≡ ok (content_of e)
    open_sealed_saved e s fragments decodes =
        let plaintext = c.contents.to_cbor (content_of e) in
        let sealed = (seal_bytes c s.seal e.entry_id plaintext s).0 in
        open_sealed-ok s.seal e.entry_id sealed plaintext _ (content_of e) refl
          (open_bytes-seal_bytes c sound s.seal e.entry_id plaintext s) decodes
          (matches-content_of e fragments (c.sha256 sealed))

    pub save_entry-IsSaved :
        (e : PendingEntry) (s : MailStore)
        → 1 ≤ length s.dirs
        → length s.dirs ≤ 256
        → Decodes c.contents (content_of e)
        → Ends (λ row t. Writes s t × IsSaved c e row t) (save_entry c e s)
    unfolding save_entry seal_bytes
    save_entry-IsSaved e s some_dirs few decodes =
        let drawn = (seal_bytes c s.seal e.entry_id (c.contents.to_cbor (content_of e)) s).1 in
        let sealed = (seal_bytes c s.seal e.entry_id (c.contents.to_cbor (content_of e)) s).0 in
        let n = length s.dirs in
        let step : Writes s drawn = record {
          dirs = (Writes-refl s).dirs;
          seal = refl;
          records = refl;
          epoch = refl;
        } in
        let start : min (0 * div_ceil (length sealed) n) (length sealed) ≡ 0 = omega arith in
        Ends-next
          (write_fragments-Writes c n 0 (div_ceil (length sealed) n) sealed drawn (omega arith) few
            (omega (arith, div_ceil_covers (length sealed) n some_dirs)))
          (λ fragments (w, reads).
            let t = (write_fragments c n 0 (div_ceil (length sealed) n) sealed drawn).1 in
            done (
              Writes-trans s drawn t step w,
              record {
                id = refl;
                sealed = sealed;
                reads = reads ∙ ap (λ m. ok (drop m sealed)) start;
                opens = rw w.seal (open_sealed_saved e s fragments decodes);
              },
            ))
