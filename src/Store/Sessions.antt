-- ===== src/Store/Sessions.antt =====
-- store/src/db.rs: the records of the account and of the sessions, each kept as its export.
use dratchet.Base.{Option, none, some, Bytes, codes}
use dratchet.Base.Actions.{◌>>=◌, pure, lift}
use dratchet.Base.Codecs.{Codec}
use dratchet.Core.Ratchet.State.{RatchetState}
use dratchet.Core.Ratchet.Export.{ExportedRatchetState, export, import}
use dratchet.Core.Account.{Account}
use dratchet.Core.Account.Export.{ExportedAccount, export_account, import_account}
use dratchet.Store.Db.{Platform, Db, Action, identity, content, put_encrypted, get_encrypted}
use dratchet.Store.Gate.{of_core}
use dratchet.Store.Peers.{ratchet_key}

abbrev pub account_key : Bytes
account_key = codes "account"

module _ (v : Platform) (codec : Codec ExportedAccount) where
  unfoldable pub save_account : Account → Db → Db
  save_account account = put_encrypted v identity account_key (export_account codec account)

  unfoldable pub load_account : Action (Option Account)
  load_account = do
    found ← get_encrypted v identity account_key
    elim found [
      | none ↦ pure none
      | some bytes ↦ (do
        account ← lift (of_core (import_account codec v.primitives bytes))
        pure (some account))
    ]

module _ (v : Platform) (codec : Codec ExportedRatchetState) where
  unfoldable pub save_ratchet : Bytes → RatchetState → Db → Db
  save_ratchet conversation_id ratchet =
      put_encrypted v content (ratchet_key conversation_id) (export codec ratchet)

  unfoldable pub load_ratchet : Bytes → Action (Option RatchetState)
  load_ratchet conversation_id = do
    found ← get_encrypted v content (ratchet_key conversation_id)
    elim found [
      | none ↦ pure none
      | some bytes ↦ (do ratchet ← lift (of_core (import codec bytes)); pure (some ratchet))
    ]
