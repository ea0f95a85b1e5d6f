-- ===== src/Server/Pruning/Mail.antt =====
-- The sweep takes expired mail and empty mailboxes, and nothing else of the mail.
use dratchet.Base.{
  ℕ, ◌≡◌, ◌∙◌, refl, none, List, [], ◌∷◌, bytes_eq, arith, Map, lookup, filter, if◌then◌else◌,
  Bool-cases, inl, inr, ◌==◌,
}
use dratchet.Server.State.{Inner, MailboxId, MailboxEntry, or_default, prune_expired}
use dratchet.Server.Mailbox.{Moment}
use dratchet.Server.Pruning.{keep_nonempty, sweep_mailboxes, sweep_once}

-- No mailbox stands twice.
abbrev pub IsMailMap : Map MailboxId (List MailboxEntry) → Type 0
IsMailMap [] = Unit {0}
IsMailMap ((id, _) ∷ m) = (lookup id m ≡ none) × IsMailMap m

lookup-keep_nonempty :
    (j id : MailboxId) (entries : List MailboxEntry) (m : Map MailboxId (List MailboxEntry))
    → or_default (lookup j (keep_nonempty id entries m)) ≡ (
        if id == j
        then (elim entries [ [] ↦ or_default (lookup j m) | e ∷ rest ↦ e ∷ rest ])
        else or_default (lookup j m))
unfolding lookup
lookup-keep_nonempty j id [] m = ground arith
lookup-keep_nonempty j id (e ∷ entries) m = ground arith

lookup-sweep_mailboxes :
    (now : ℕ) (j : MailboxId) (m : Map MailboxId (List MailboxEntry))
    → IsMailMap m
    → or_default (lookup j (sweep_mailboxes now m)) ≡ prune_expired now (or_default (lookup j m))
unfolding lookup sweep_mailboxes prune_expired filter
lookup-sweep_mailboxes now j [] u = refl
lookup-sweep_mailboxes now j ((id, entries) ∷ m) (absent, u) =
    let rest = lookup-sweep_mailboxes now j m u in
    let head = lookup-keep_nonempty j id (prune_expired now entries) (sweep_mailboxes now m) in
    elim (Bool-cases (id == j)) [
      | inl same ↦
          let gone : lookup j m ≡ none = rw (← (bytes_eq.decides id j).0 same) absent in
          rw same (kept (prune_expired now entries) (rw same at head) (rw gone at rest))
      | inr other ↦ rw (other, ← rest) (rw other at head)
    ]
  where
    kept :
        (xs : List MailboxEntry) {ys : List MailboxEntry} {zs : List MailboxEntry}
        → ys ≡ (elim xs [ [] ↦ zs | e ∷ rest ↦ e ∷ rest ])
        → zs ≡ []
        → ys ≡ xs
    kept [] h z = h ∙ z
    kept (x ∷ xs) h z = h

-- A sweep leaves in every mailbox exactly the entries that have not expired, in their order, where
-- no mailbox stands twice in the map.
pub sweep_once_mail :
    (stale_after : ℕ) (now : Moment) (s : Inner) (id : MailboxId)
    → IsMailMap s.mailboxes
    → or_default (lookup id (sweep_once stale_after now s).mailboxes)
      ≡ prune_expired now.wall (or_default (lookup id s.mailboxes))
unfolding sweep_once
sweep_once_mail stale_after now s id u = lookup-sweep_mailboxes now.wall id s.mailboxes u
