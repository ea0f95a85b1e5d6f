-- ===== src/Store/Scan.antt =====
-- The loop by which store/src/contacts.rs and store/src/messages.rs list their records.
use dratchet.Base.{ℕ, ◌+◌, Option, none, some, List, [], ◌∷◌, Bytes, ok, err}
use dratchet.Store.Errors.{StoreResult}
use dratchet.Store.Db.{Platform, Db, Scope, get_encrypted}
use dratchet.Base.Codecs.{Codec}

module _ {A : Type 0} (v : Platform) (scope : Scope) (codec : Codec A) where
  -- The record that a read gives, or nothing where it does not decrypt or decode.
  abbrev pub readable : StoreResult (Option Bytes) → Option A
  readable (ok (some bytes)) = codec.from_cbor bytes
  readable (ok none) = none
  readable (err _) = none

  abbrev pub tally : Option A → List A × ℕ → List A × ℕ
  tally none (found, unreadable) = (found, unreadable + 1)
  tally (some a) (found, unreadable) = (a ∷ found, unreadable)

  -- What is readable under the keys, in their order, and the count of what is not.
  unfoldable pub scan_records : List Bytes → Db → (List A × ℕ) × Db
  scan_records [] db = (([], 0), db)
  scan_records (key ∷ others) db =
      let (read, after) = get_encrypted v scope key db in
      let (rest, last) = scan_records others after in (tally (readable read) rest, last)
