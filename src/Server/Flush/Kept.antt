-- ===== src/Server/Flush/Kept.antt =====
-- server/src/flush.rs: what a flush leaves alone in the memory.
use dratchet.Base.{◌≡◌, refl, not, List, [], ◌∷◌, Bytes, bytes_eq, arith, Map, map, filter, elem}
use dratchet.Server.State.{MailboxId, MailboxEntry}
use dratchet.Server.Flush.{mark_saved, mark_mailboxes}

-- The entries with other ids, of each mailbox
abbrev pub others :
    List Bytes → Map MailboxId (List MailboxEntry) → Map MailboxId (List MailboxEntry)
others saved_ids [] = []
others saved_ids ((id, entries) ∷ mailboxes) =
    (id, filter (λ e. not (elem e.entry_id saved_ids)) entries) ∷ others saved_ids mailboxes

-- The ids of the entries of each mailbox
abbrev pub entry_ids : Map MailboxId (List MailboxEntry) → Map MailboxId (List Bytes)
entry_ids [] = []
entry_ids ((id, entries) ∷ mailboxes) = (id, map (λ e. e.entry_id) entries) ∷ entry_ids mailboxes

filter-map-mark_saved :
    (saved_ids : List Bytes) (entries : List MailboxEntry)
    → filter (λ e. not (elem e.entry_id saved_ids)) (map (mark_saved saved_ids) entries)
      ≡ filter (λ e. not (elem e.entry_id saved_ids)) entries
unfolding filter mark_saved
filter-map-mark_saved saved_ids [] = refl
filter-map-mark_saved saved_ids (e ∷ entries) =
    ground (arith, filter-map-mark_saved saved_ids entries)

map-map-mark_saved :
    (saved_ids : List Bytes) (entries : List MailboxEntry)
    → map (λ e. e.entry_id) (map (mark_saved saved_ids) entries) ≡ map (λ e. e.entry_id) entries
unfolding mark_saved
map-map-mark_saved saved_ids [] = refl
map-map-mark_saved saved_ids (e ∷ entries) = ground (arith, map-map-mark_saved saved_ids entries)

pub others-mark_mailboxes :
    (saved_ids : List Bytes) (mailboxes : Map MailboxId (List MailboxEntry))
    → others saved_ids (mark_mailboxes saved_ids mailboxes) ≡ others saved_ids mailboxes
unfolding mark_mailboxes
others-mark_mailboxes saved_ids [] = refl
others-mark_mailboxes saved_ids ((id, entries) ∷ mailboxes) =
    rw (filter-map-mark_saved saved_ids entries, others-mark_mailboxes saved_ids mailboxes) refl

pub entry_ids-mark_mailboxes :
    (saved_ids : List Bytes) (mailboxes : Map MailboxId (List MailboxEntry))
    → entry_ids (mark_mailboxes saved_ids mailboxes) ≡ entry_ids mailboxes
unfolding mark_mailboxes
entry_ids-mark_mailboxes saved_ids [] = refl
entry_ids-mark_mailboxes saved_ids ((id, entries) ∷ mailboxes) =
    rw (map-map-mark_saved saved_ids entries, entry_ids-mark_mailboxes saved_ids mailboxes) refl
