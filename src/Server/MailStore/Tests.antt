-- ===== src/Server/MailStore/Tests.antt =====
-- Runs of the mail store with two directories and one message, with stand-ins for the crates.
use dratchet.Base.{
  ℕ, ◌+◌, ◌≤◌, ◌≡◌, refl, true, false, none, some, [], ◌∷◌, Bytes, bytes_eq, ok, length, replicate,
  length-replicate, elem, lookup, eqb, ◌&&◌, ◌==◌, if◌then◌else◌, codes, arith,
}
use dratchet.Server.Storage.{
  MailStore, Crates, PendingEntry, SealedContent, StoreState, Epoch, Directory,
}
use dratchet.Server.MailStore.{save, retain, read_envelope, put_state, derive}
use dratchet.Server.MailStore.Epochs.{open_store}
use dratchet.Server.MailStore.Reading.{IsSound, content_of}
use dratchet.Server.MailStore.Saved.{read_envelope-save}
use dratchet.Server.MailStore.Owned.{OwnsFragments, save-OwnsFragments}
use dratchet.Server.MailStore.Retained.{read_envelope-retain}
use dratchet.Server.MailStore.Restart.{state_of, open_store_epoch}

abbrev pub entry : PendingEntry
entry = record {
  mailbox_id = replicate 16 7;
  entry_id = replicate 16 1;
  envelope = 72 ∷ 105 ∷ [];
  expires_at = 50;
  written_by = replicate 32 2;
}

abbrev epoch : Epoch
epoch = record { store_id = replicate 16 9; number = 4 }

-- A cipher that leaves the text as it is, and draws that repeat their number
abbrev pub crates_for : PendingEntry → Crates
crates_for e = record {
  primitives = record {
    hmac = λ key tag. key;
    hkdf = λ salt ikm info n. replicate n 0;
    public_key = λ secret. secret;
    diffie_hellman = λ secret public. secret;
    was_contributory = λ shared. true;
    seal = λ key nonce aad m. some m;
    unseal = λ key nonce aad c. some c;
  };
  sha256 = λ m. m;
  random = λ n len. replicate len n;
  contents = record { to_cbor = λ x. x.envelope; from_cbor = λ bytes. some (content_of e) };
  records = record { to_cbor = λ x. []; from_cbor = λ bytes. none };
  states = record { to_cbor = λ x. []; from_cbor = λ bytes. some (state_of epoch false []) };
}

abbrev crates : Crates
crates = crates_for entry

pub crates_for-IsSound : (e : PendingEntry) → IsSound (crates_for e)
crates_for-IsSound e = record {
  seals = λ key nonce aad m. (m, refl, refl);
  draws_length = λ n. length-replicate 12 n;
}

abbrev pub empty : MailStore
empty = record {
  index_table = [];
  meta = (none, none);
  dirs = [] ∷ [] ∷ [];
  seal = 1 ∷ [];
  index = derive crates (3 ∷ []) (codes "index");
  records = [];
  epoch = epoch;
  draws = 0;
}

pub empty-OwnsFragments : OwnsFragments [] ([] ∷ [] ∷ [])
unfolding lookup
empty-OwnsFragments = record {
  is_map = tt;
  taken = λ j b found. absurd (ground arith);
  apart = λ i j a b found other apart. absurd (ground arith);
}

abbrev stored : MailStore
stored = (save crates (entry ∷ []) empty).1

entry-saved : save crates (entry ∷ []) empty ≡ (ok tt, stored)
unfolding save dratchet.Server.MailStore.save_entries dratchet.Server.MailStore.save_entry
    dratchet.Server.MailStore.write_fragments dratchet.Server.MailStore.seal_bytes
    dratchet.Server.MailStore.write_private dratchet.Server.Storage.read_file
    dratchet.Server.MailStore.uuid_v4 dratchet.Base.lookup dratchet.Server.Storage.put_file
entry-saved = refl

read_envelope-save_example :
    (read_envelope crates entry.entry_id stored ≡ ok (some (72 ∷ 105 ∷ []))) × Unit {0}
unfolding elem
read_envelope-save_example =
    read_envelope-save crates (crates_for-IsSound entry) (entry ∷ []) empty stored (omega arith)
      (omega arith) (refl, tt) (refl, tt) entry-saved

save-OwnsFragments_example : OwnsFragments stored.records stored.dirs
save-OwnsFragments_example =
    save-OwnsFragments crates (entry ∷ []) empty stored (omega arith) empty-OwnsFragments
      entry-saved

stored-OwnsFragments : OwnsFragments stored.records stored.dirs
stored-OwnsFragments =
    save-OwnsFragments crates (entry ∷ []) empty stored (omega arith) empty-OwnsFragments
      entry-saved

read_envelope-retain_example :
    read_envelope crates entry.entry_id (retain crates (entry.entry_id ∷ []) stored).1
    ≡ read_envelope crates entry.entry_id stored
unfolding elem read_envelope dratchet.Base.bytes_beq
read_envelope-retain_example =
    read_envelope-retain crates (entry.entry_id ∷ []) entry.entry_id stored stored-OwnsFragments

-- After a run that saved and did not shut down
abbrev left : MailStore
left = put_state crates epoch false [] empty

open_store_epoch_example :
    (open_store crates 10 (replicate 16 5) (3 ∷ []) left).epoch
    ≡ record { store_id = replicate 16 9; number = 5 }
unfolding dratchet.Base.bytes_beq dratchet.Base.Names.sort_keys put_state
    dratchet.Server.MailStore.seal_bytes
open_store_epoch_example =
    open_store_epoch crates (crates_for-IsSound entry) (3 ∷ []) epoch false [] empty left refl refl
      refl refl 10 (replicate 16 5)
