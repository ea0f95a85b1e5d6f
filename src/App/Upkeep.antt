-- ===== src/App/Upkeep.antt =====
-- app/src/lib.rs: what a client does with all its conversations when it starts or connects, and its account.
use dratchet.Base.{
  ℕ, ◌+◌, ◌*◌, Bool, true, false, not, Option, none, some, List, [], ◌∷◌, Bytes, bytes_eq,
  if◌then◌else◌, ◌==◌,
}
use dratchet.Base.Actions.{◌>>=◌, ◌>>◌, pure}
use dratchet.Base.Codecs.{Codec}
use dratchet.Core.Account as Accounts
use dratchet.Core.Account.{Account}
use dratchet.Core.Account.Export.{ExportedAccount}
use dratchet.Store.Db.{Db}
use dratchet.Store.Records.{Contact}
use dratchet.Store.Contacts.{list_contacts}
use dratchet.Store.Messages.{is_just, load_server_boot_id, save_server_boot_id}
use dratchet.Store.Messages.Delivery as Delivery
use dratchet.Store.Sessions.{save_account, load_account}
use dratchet.App.Client.{
  Crates, Action, on_db, from_db, update_db, conversation_id_for, mailbox_ttl_secs,
}

abbrev pub expiry_grace_secs : ℕ
expiry_grace_secs = 60 * 60

abbrev is_empty : Bytes → Bool
is_empty [] = true
is_empty (b ∷ bs) = false

-- `previous.is_some_and(|prev| prev != boot_id)`
abbrev pub has_restarted : Option Bytes → Bytes → Bool
has_restarted none boot_id = false
has_restarted (some previous) boot_id = not (previous == boot_id)

module _ (c : Crates) (account : Bytes) where
  -- The sum of what a call counts in each contact's conversation
  unfoldable pub total_over : (Bytes → Db → ℕ × Db) → List Contact → Db → ℕ × Db
  total_over count [] db = (0, db)
  total_over count (contact ∷ contacts) db =
      let (n, after) = count (conversation_id_for c account contact) db in
      let (rest, last) = total_over count contacts after in (n + rest, last)

  unfoldable pub over_contacts : (Bytes → Db → ℕ × Db) → Db → ℕ × Db
  over_contacts count db =
      let (contacts, listed) = list_contacts c.platform c.contacts db in
      total_over count contacts listed

  unfoldable pub mark_expired_sends : ℕ → Action ℕ
  mark_expired_sends now = from_db (
      over_contacts (λ conv_id.
        Delivery.mark_expired_sends c.platform c.messages conv_id mailbox_ttl_secs expiry_grace_secs
          now))

  unfoldable pub mark_pending_sends_uncertain : Action ℕ
  mark_pending_sends_uncertain =
      from_db (over_contacts (Delivery.mark_undelivered_uncertain c.platform c.messages))

  unfoldable pub flag_lost_in_restart : Db → ℕ × Db
  flag_lost_in_restart =
      over_contacts (Delivery.mark_unconfirmed_lost_in_restart c.platform c.messages)

  unfoldable pub note_server_boot : Bytes → Action ℕ
  note_server_boot boot_id = if is_empty boot_id then pure 0 else (do
    previous ← on_db (load_server_boot_id c.platform)
    flagged ←
        from_db (if has_restarted previous boot_id then flag_lost_in_restart else (λ db. (0, db)))
    update_db
        (λ db. if is_just previous boot_id then db else save_server_boot_id c.platform boot_id db)
    pure flagged)

-- The three secrets are those that a new account draws.
unfoldable pub open_account :
    Crates → Codec ExportedAccount → Bytes → Bytes → Bytes → Action Account
open_account c codec identity identity_dh_secret signed_prekey_secret = do
  found ← on_db (load_account c.platform codec)
  elim found [
    | some account ↦ pure account
    | none ↦ (do
      let account =
          Accounts.generate c.platform.primitives c.signatures identity identity_dh_secret
            signed_prekey_secret
      update_db (save_account c.platform codec account)
      pure account)
  ]
