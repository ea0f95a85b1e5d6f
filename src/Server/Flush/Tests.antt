-- ===== src/Server/Flush/Tests.antt =====
-- A flush of the small service into an empty store.
use dratchet.Base.{
  ℕ, ◌+◌, ◌≤◌, ◌≡◌, refl, ap, true, false, none, some, [], ◌∷◌, Bytes, bytes_eq, ok, length, all,
  Each, arith,
}
use dratchet.Server.State.{total_unsaved}
use dratchet.Server.Storage.{MailStore, Crates}
use dratchet.Server.MailStore.{save, read_envelope}
use dratchet.Server.MailStore.Tests.{crates_for, crates_for-IsSound, empty, empty-OwnsFragments}
use dratchet.Server.Flush.{Service, pending_entry, batch_of, flush_now}
use dratchet.Server.Flush.Progress.{is_settled, waiting_ids, entries_of, flush_now_settles}
use dratchet.Server.Flush.Kept.{others, entry_ids}
use dratchet.Server.Flush.Readable.{IsRead, waiting_mail, flush_now_readable}
use dratchet.Server.State.{Inner}
use dratchet.Server.Tests.{alice, box, letter, service}

-- One letter waits; the other has expired.
abbrev before : Service
before = record {
  inner = record service { mailboxes = (box, letter alice 50 ∷ letter alice 5 ∷ []) ∷ [] };
  mail_store = some empty;
  flushed = 0;
}

abbrev crates_here : Crates
crates_here = crates_for (pending_entry box (letter alice 50))

abbrev saved : MailStore
saved = (save crates_here (batch_of 10 before.inner.mailboxes) empty).1

before-saved : save crates_here (batch_of 10 before.inner.mailboxes) empty ≡ (ok tt, saved)
unfolding batch_of dratchet.Server.State.prune_expired dratchet.Base.filter save
    dratchet.Server.MailStore.save_entries dratchet.Server.MailStore.save_entry
    dratchet.Server.MailStore.write_fragments dratchet.Server.MailStore.seal_bytes
    dratchet.Server.MailStore.write_private dratchet.Server.Storage.read_file
    dratchet.Server.MailStore.uuid_v4 dratchet.Base.lookup dratchet.Server.Storage.put_file
before-saved = refl

flush_now_settles_example :
    let t = (flush_now crates_here 10 (λ inner. inner) before).1 in
    ((flush_now crates_here 10 (λ inner. inner) before).0 ≡ ok tt)
    × (t.flushed ≡ 1)
    × (all (is_settled (waiting_ids 10 before.inner.mailboxes)) (entries_of t.inner.mailboxes)
        ≡ true)
    × (t.inner.memory_bytes ≡ total_unsaved t.inner.mailboxes)
flush_now_settles_example =
    flush_now_settles crates_here 10 (λ inner. inner) before empty refl (ap (λ r. r.0) before-saved)

-- Another letter comes while the save runs.
abbrev more : Inner → Inner
more inner = record inner {
  mailboxes = (box, letter alice 50 ∷ letter alice 5 ∷ letter alice 80 ∷ []) ∷ [];
}

flush_now_readable_example :
    let t = (flush_now crates_here 10 more before).1 in
    let waited : Inner = more before.inner in
    (kept : MailStore) × (t.mail_store ≡ some kept)
    × Each (IsRead crates_here kept) (waiting_mail 10 before.inner)
    × Unit {0}
    × (entry_ids t.inner.mailboxes ≡ entry_ids waited.mailboxes)
    × (others (waiting_ids 10 before.inner.mailboxes) t.inner.mailboxes
        ≡ others (waiting_ids 10 before.inner.mailboxes) waited.mailboxes)
unfolding batch_of dratchet.Base.filter dratchet.Server.State.prune_expired dratchet.Base.elem
flush_now_readable_example =
    flush_now_readable crates_here 10 more before empty saved []
      (crates_for-IsSound (pending_entry box (letter alice 50))) refl (omega arith) (omega arith)
      empty-OwnsFragments (refl, tt) (refl, tt) before-saved tt
