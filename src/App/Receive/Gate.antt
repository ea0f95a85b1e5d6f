-- ===== src/App/Receive/Gate.antt =====
-- Chat from a contact that is not verified leaves no trace.
use dratchet.Base.{ℕ, ◌≡◌, false, Bytes, ok, arith}
use dratchet.Core.Envelope.{Envelope, decode}
use dratchet.Core.Payload.{payload_chat}
use dratchet.Core.Ratchet.State.{RatchetState}
use dratchet.Core.Ratchet.Engine.{decrypt_payload}
use dratchet.Store.Db.{Db}
use dratchet.Store.Records.{Contact}
use dratchet.Store.Gate.{is_verified, decrypt_gated}
use dratchet.App.Client.{Crates}
use dratchet.App.Receive.{no_effect, apply_entry, apply_decrypted}

-- An entry that the session decrypts to chat, from a contact that is not verified, has no effect: the database
-- stays as it is and nothing is shown, while the session goes on as the decryption left it.
pub apply_entry_unverified :
    (c : Crates) (now : ℕ) (contact : Contact) (conv_id new_secret entry body : Bytes)
    (envelope : Envelope) (ratchet : RatchetState) (db : Db)
    → decode entry ≡ ok envelope
    → (decrypt_payload c.platform.primitives new_secret envelope ratchet).0
      ≡ ok (payload_chat, body)
    → is_verified contact.verification_state ≡ false
    → apply_entry c now contact conv_id new_secret entry ratchet db
      ≡ (ok no_effect, (decrypt_payload c.platform.primitives new_secret envelope ratchet).1, db)
unfolding apply_entry apply_decrypted decrypt_gated
apply_entry_unverified c now contact conv_id new_secret entry body envelope ratchet db decoded
      opened h =
    ground (arith, decoded, opened, h)
