-- ===== src/Server/Storage.antt =====
-- server/src/mailstore.rs: what the mail store keeps: the records of its index, and the files of its directories.
-- A directory is the map of its fragments' contents by their names.
use Prim.Native.String.{String}
use dratchet.Base.{
  ℕ, zero, suc, ◌+◌, ◌-◌, ◌/◌, ◌%◌, Bool, Option, none, some, List, [], ◌∷◌, ◌++◌, Bytes, bytes_eq,
  codes, Map, lookup, insert, remove, slice, map,
}
use dratchet.Base.Actions.{Method}
use dratchet.Base.Codecs.{Codec}
use dratchet.Base.Names.{hex}
use dratchet.Core.Ratchet.Keys.{Primitives}
use dratchet.Server.Abuse.{Fingerprint}
use dratchet.Server.State.{MailboxId}

abbrev pub nonce_len : ℕ
nonce_len = 12

abbrev pub meta_state_key : Bytes
meta_state_key = codes "state"

abbrev pub meta_key_check_key : Bytes
meta_key_check_key = codes "key_check"

abbrev pub key_check_plaintext : Bytes
key_check_plaintext = codes "dratchet mailstore key check v1"

pub data StoreError : Type 0 where
  io : StoreError
  unreadable : String → StoreError

pub record Epoch : Type 0 where
  pub store_id : Bytes
  pub number : ℕ

-- `expires_at` is in seconds here.
pub record PendingEntry : Type 0 where
  pub mailbox_id : MailboxId
  pub entry_id : Bytes
  pub envelope : Bytes
  pub expires_at : ℕ
  pub written_by : Fingerprint

pub record RestoredEntry : Type 0 where
  pub mailbox_id : MailboxId
  pub entry_id : Bytes
  pub expires_at : ℕ
  pub written_by : Fingerprint

pub record SealedContent : Type 0 where
  pub mailbox_id : Bytes
  pub entry_id : Bytes
  pub envelope : Bytes
  pub expires_at : ℕ
  pub written_by : Bytes

-- `fragments`: for each the number of its directory and its name
pub record IndexRecord : Type 0 where
  pub mailbox_id : Bytes
  pub expires_at : ℕ
  pub written_by : Bytes
  pub fragments : List (ℕ × Bytes)
  pub checksum : Bytes

pub record StoreState : Type 0 where
  pub store_id : Bytes
  pub number : ℕ
  pub clean : Bool
  pub manifest : Bytes

abbrev pub Directory : Type 0
Directory = Map Bytes Bytes

-- `MailStore`, with the tables of its index and the directories as they are on disk. `draws` counts the random
-- draws; `meta` is the two sealed records of the meta table.
pub record MailStore : Type 0 where
  pub index_table : Map Bytes Bytes
  pub meta : Option Bytes × Option Bytes
  pub dirs : List Directory
  pub seal : Bytes
  pub index : Bytes
  pub records : Map Bytes IndexRecord
  pub epoch : Epoch
  pub draws : ℕ

-- The crates chacha20poly1305, sha2 and ciborium, and the random source by draws.
pub record Crates : Type 0 where
  pub primitives : Primitives
  pub sha256 : Bytes → Bytes
  pub random : ℕ → ℕ → Bytes
  pub contents : Codec SealedContent
  pub records : Codec IndexRecord
  pub states : Codec StoreState

abbrev pub Action : Type 0 → Type 0
Action A = Method StoreError MailStore A

-- `expect`
abbrev pub expect : Option Bytes → Bytes
expect none = []
expect (some bytes) = bytes

abbrev pub keys {ℓ} : {A : Type ℓ} → Map Bytes A → List Bytes
keys = map (λ entry. entry.0)

abbrev pub concat : List Bytes → Bytes
concat [] = []
concat (bytes ∷ rest) = bytes ++ concat rest

-- `usize::div_ceil`
abbrev pub div_ceil : ℕ → ℕ → ℕ
div_ceil a n = (a + n - 1) / n

-- The file of this name in the directory of this number
unfoldable pub read_file : ℕ → Bytes → List Directory → Option Bytes
read_file i name [] = none
read_file zero name (dir ∷ dirs) = lookup name dir
read_file (suc i) name (dir ∷ dirs) = read_file i name dirs

unfoldable pub put_file : ℕ → Bytes → Bytes → List Directory → List Directory
put_file i name bytes [] = []
put_file zero name bytes (dir ∷ dirs) = insert name bytes dir ∷ dirs
put_file (suc i) name bytes (dir ∷ dirs) = dir ∷ put_file i name bytes dirs

unfoldable pub remove_file : ℕ → Bytes → List Directory → List Directory
remove_file i name [] = []
remove_file zero name (dir ∷ dirs) = remove name dir ∷ dirs
remove_file (suc i) name (dir ∷ dirs) = dir ∷ remove_file i name dirs

-- The bits of a random UUID of version 4, in place of those drawn
abbrev pub with_version : Bytes → Bytes
with_version (b0 ∷ b1 ∷ b2 ∷ b3 ∷ b4 ∷ b5 ∷ b6 ∷ b7 ∷ b8 ∷ rest) =
    b0 ∷ b1 ∷ b2 ∷ b3 ∷ b4 ∷ b5 ∷ (b6 % 16 + 64) ∷ b7 ∷ (b8 % 64 + 128) ∷ rest
with_version other = other

unfoldable pub uuid_of : Bytes → Bytes
uuid_of drawn =
    let h = hex (with_version drawn) in
    let dash = codes "-" in
    slice 0 8 h
    ++ (dash
        ++ (slice 8 12 h
            ++ (dash ++ (slice 12 16 h ++ (dash ++ (slice 16 20 h ++ (dash ++ slice 20 32 h)))))))
