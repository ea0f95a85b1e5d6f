-- ===== src/Store/Notices.antt =====
-- store/src/profile.rs: when a change of a contact's handle was last shown.
use dratchet.Base.{ℕ, Option, none, some, ◌++◌, Bytes, codes, ok_or}
use dratchet.Base.Names.{hex}
use dratchet.Base.Actions.{◌>>=◌, pure, lift}
use dratchet.Base.Codecs.{Codec}
use dratchet.Store.Errors.{malformed_record}
use dratchet.Store.Db.{Platform, Db, Action, contacts, put_encrypted, get_encrypted}

pub record ProfileNoticeState : Type 0 where
  pub shown_at : ℕ
  pub handle : Bytes

unfoldable pub profile_notice_key : Bytes → Bytes
profile_notice_key fingerprint = codes "profile_notice:" ++ hex fingerprint

module _ (v : Platform) (codec : Codec ProfileNoticeState) where
  unfoldable pub load_profile_notice_state : Bytes → Action (Option (ℕ × Bytes))
  load_profile_notice_state fingerprint = do
    found ← get_encrypted v contacts (profile_notice_key fingerprint)
    elim found [
      | none ↦ pure none
      | some bytes ↦ (do
        state ← lift (ok_or (codec.from_cbor bytes) (malformed_record "profile notice state"))
        pure (some (state.shown_at, state.handle)))
    ]

  unfoldable pub save_profile_notice_state : Bytes → ℕ → Bytes → Db → Db
  save_profile_notice_state fingerprint shown_at handle =
      put_encrypted v contacts (profile_notice_key fingerprint)
        (codec.to_cbor (record { shown_at = shown_at; handle = handle }))
