-- ===== src/Server/Pruning.antt =====
-- server/src/pruning.rs: one pass of the background sweep. Its summary is only logged, and the
-- per-address limiter has its own state, and its sweep is in Server/Address.
pub mod Mail
use dratchet.Base.{
  ℕ, Bool, true, false, not, ◌||◌, Option, List, [], ◌∷◌, bytes_eq, nat_eq, pair_eq, if◌then◌else◌,
  Map, contains_key, filter,
}
use dratchet.Server.Abuse.{ConnectionId, Fingerprint, sweep_stale}
use dratchet.Server.State.{
  Inner, MailboxId, MailboxEntry, PresenceState, online, away, offline, StoredBundle, prune_expired,
}
use dratchet.Server.Mailbox.{Moment}

unfoldable pub identity_is_durable :
    Fingerprint → Map Fingerprint StoredBundle → Map Fingerprint ConnectionId → Bool
identity_is_durable fingerprint directory connections =
    contains_key fingerprint directory || contains_key fingerprint connections

-- A map with its lists filtered, without those that this empties.
abbrev pub keep_nonempty {ℓ κ} :
    {K : Type ℓ} {A : Type κ} → K → List A → Map K (List A) → Map K (List A)
keep_nonempty k [] m = m
keep_nonempty k (a ∷ rest) m = (k, a ∷ rest) ∷ m

unfoldable pub retain_lists {ℓ κ} :
    {K : Type ℓ} {A : Type κ} → (A → Bool) → Map K (List A) → Map K (List A)
retain_lists p [] = []
retain_lists p ((k, xs) ∷ m) = keep_nonempty k (filter p xs) (retain_lists p m)

unfoldable pub sweep_mailboxes :
    ℕ → Map MailboxId (List MailboxEntry) → Map MailboxId (List MailboxEntry)
sweep_mailboxes now [] = []
sweep_mailboxes now ((id, entries) ∷ m) =
    keep_nonempty id (prune_expired now entries) (sweep_mailboxes now m)

abbrev pub is_offline : PresenceState → Bool
is_offline online = false
is_offline away = false
is_offline (offline _) = true

unfoldable pub sweep_once : ℕ → Moment → Inner → Inner
sweep_once stale_after now s =
    let durable : Fingerprint → Bool = λ fp. identity_is_durable fp s.directory s.connections in
    record s {
      mailboxes = sweep_mailboxes now.wall s.mailboxes;
      presence = filter (λ b. not (is_offline b.1) || durable b.0) s.presence;
      fetch_evidence = filter (λ b. durable b.0) s.fetch_evidence;
      subscriptions = retain_lists durable s.subscriptions;
      fetch_rate_limiter = (sweep_stale stale_after now.instant s.fetch_rate_limiter).1;
      new_mailbox_rate_limiter = (sweep_stale stale_after now.instant s.new_mailbox_rate_limiter).1;
    }
