-- ===== src/Server/MailStore/Restart.antt =====
-- server/src/mailstore.rs: the Server Epoch that a store is opened with, after the run that wrote its state.
use Prim.Native.String.{String}
use dratchet.Base.{
  ℕ, ◌+◌, ◌≡◌, refl, ap, ◌∙◌, Bool, true, not, ◌&&◌, ◌||◌, Option, none, some, [], ◌∷◌, ◌++◌, Bytes,
  bytes_eq, arith, length, map, eqb, ltb, is_some, if◌then◌else◌, ◌==◌, codes,
}
use dratchet.Base.Codecs.{Decodes}
use dratchet.Base.Names.{sort_keys}
use dratchet.Server.Storage.{
  MailStore, Crates, StoreState, Epoch, keys, concat, key_check_plaintext, meta_state_key,
  meta_key_check_key,
}
use dratchet.Server.MailStore.{derive, seal_bytes, open_bytes, put_state}
use dratchet.Server.MailStore.Reading.{IsSound, open_bytes-seal_bytes}
use dratchet.Server.MailStore.Epochs.{
  to_be_bytes_u64, continuing_epoch, saved_state, key_ok, judge, rebuild, discard_unreadable,
  open_store, or_because, Rebuilt,
}
use dratchet.Server.MailStore.Rebuilding.{rows_due, rebuild_counts}

-- What the manifest hashes of a row: its id where that has 16 bytes, and else a marked form
abbrev pub mark_of : Bytes → Bytes
mark_of id =
    if eqb (length id) 16
    then id
    else 255 ∷ (codes "bad row" ++ (to_be_bytes_u64 (length id) ++ id))

-- The state record that `put_state` seals
abbrev pub state_of : Epoch → Bool → Bytes → StoreState
state_of epoch clean listed = record {
  store_id = epoch.store_id;
  number = epoch.number;
  clean = clean;
  manifest = listed;
}

counted :
    (because : Option String) (dropped n : ℕ)
    → (if is_some
            (if ltb 0 dropped then or_because because "entries could not be rebuilt" else because)
          && true
        then n + 1
        else n)
      ≡ (if is_some because || ltb 0 dropped then n + 1 else n)
counted none dropped n = ground arith
counted (some why) dropped n = ground arith

module _ (c : Crates) where
  -- The store as `open` first holds it, with the keys derived from the configured one
  abbrev pub keyed : Bytes → MailStore → MailStore
  keyed key disk = record disk {
    seal = derive c key (codes "seal");
    index = derive c key (codes "index");
    records = [];
    epoch = record { store_id = []; number = 0 };
  }

  -- The number of entries that could not be rebuilt at the opening
  abbrev pub dropped_at : ℕ → Bytes → MailStore → ℕ
  dropped_at now key disk =
      (rebuild c now disk.index_table
        (record { restored = []; dropped = 0; to_remove = []; store = keyed key disk })).dropped

  -- Whether the manifest of the index's rows, in the order of their ids, is the given one
  abbrev pub is_as_left : Bytes → MailStore → Bool
  is_as_left listed disk =
      c.sha256 (concat (map mark_of (sort_keys (keys disk.index_table)))) == listed

  continuing_epoch_iff :
      (epoch : Epoch) (clean : Bool) (listed : Bytes) (disk : MailStore)
      → is_some (continuing_epoch c (state_of epoch clean listed) (keys disk.index_table))
        ≡ not (is_as_left listed disk && clean)
  unfolding continuing_epoch
  continuing_epoch_iff epoch clean listed disk = ground arith

  key_ok_found :
      (s : MailStore) (sealed : Bytes)
      → s.meta.1 ≡ some sealed
      → open_bytes c s.index meta_key_check_key sealed ≡ some key_check_plaintext
      → key_ok c s ≡ true
  unfolding key_ok
  key_ok_found s sealed found opens =
      rw (found, key_ok)
        (rw opens (ground (arith, bytes_eq.decides key_check_plaintext key_check_plaintext)))

  saved_state_found :
      (s : MailStore) (sealed plaintext : Bytes) (state : StoreState)
      → s.meta.0 ≡ some sealed
      → open_bytes c s.index meta_state_key sealed ≡ some plaintext
      → c.states.from_cbor plaintext ≡ some state
      → length state.store_id ≡ 16
      → saved_state c s ≡ some state
  unfolding saved_state
  saved_state_found s sealed plaintext state found opens decodes sixteen =
      rw (found, saved_state) (rw opens (rw decodes (rw sixteen refl)))

  judge_saved :
      (fresh : Bytes) (s : MailStore) (state : StoreState)
      → key_ok c s ≡ true
      → saved_state c s ≡ some state
      → judge c fresh s ≡ record {
        continues = true;
        advanced_because = continuing_epoch c state (keys s.index_table);
        epoch = record { store_id = state.store_id; number = state.number };
      }
  unfolding judge
  judge_saved fresh s state good saved = ground (arith, good, saved)

  discard_unreadable_ok :
      (s : MailStore) → key_ok c s ≡ true → discard_unreadable c s ≡ ([], (s.index_table, s))
  unfolding discard_unreadable
  discard_unreadable_ok s good = ground (arith, good)

  open_store_continues :
      (now : ℕ) (fresh key : Bytes) (disk : MailStore) (state : StoreState)
      → key_ok c (keyed key disk) ≡ true
      → saved_state c (keyed key disk) ≡ some state
      → (open_store c now fresh key disk).epoch ≡ record {
        store_id = state.store_id;
        number =
            if is_some (continuing_epoch c state (keys disk.index_table))
              || ltb 0 (dropped_at now key disk)
            then state.number + 1
            else state.number;
      }
  unfolding open_store
  open_store_continues now fresh key disk state good saved =
      rw (judge_saved fresh (keyed key disk) state good saved, open_store)
        (rw (discard_unreadable_ok (keyed key disk) good) (
          ap (λ n. record { store_id = state.store_id; number = n })
            (counted (continuing_epoch c state (keys disk.index_table)) (dropped_at now key disk)
              state.number)))

  all_restored :
      (now : ℕ) (fresh key : Bytes) (disk : MailStore)
      → key_ok c (keyed key disk) ≡ true
      → eqb
          (length (open_store c now fresh key disk).restored)
          (rows_due c now (derive c key (codes "index")) disk.index_table)
        ≡ eqb (dropped_at now key disk) 0
  unfolding open_store
  all_restored now fresh key disk good =
      let start : Rebuilt = record {
        restored = [];
        dropped = 0;
        to_remove = [];
        store = keyed key disk;
      } in
      let counted =
        rebuild_counts c now (derive c key (codes "index")) disk.index_table start refl in
      rw (discard_unreadable_ok (keyed key disk) good, open_store) (ground (arith, counted))

  module _ (sound : IsSound c) (key : Bytes) (epoch : Epoch) (clean : Bool) (listed : Bytes)
      (s disk : MailStore) (sixteen : length epoch.store_id ≡ 16)
      (decodes : Decodes c.states (state_of epoch clean listed))
      (same_key : s.index ≡ derive c key (codes "index"))
      (left : disk.meta ≡ (put_state c epoch clean listed s).meta) where
    key_ok_written : key_ok c (keyed key disk) ≡ true
    unfolding put_state seal_bytes
    key_ok_written =
        let s1 =
          (seal_bytes c s.index meta_state_key (c.states.to_cbor (state_of epoch clean listed))
            s).1 in
        key_ok_found (keyed key disk)
          (seal_bytes c s1.index meta_key_check_key key_check_plaintext s1).0 (ap (λ m. m.1) left)
          (rw (← same_key)
            (open_bytes-seal_bytes c sound s.index meta_key_check_key key_check_plaintext s1))

    saved_state_written : saved_state c (keyed key disk) ≡ some (state_of epoch clean listed)
    unfolding put_state seal_bytes
    saved_state_written =
        let plaintext = c.states.to_cbor (state_of epoch clean listed) in
        saved_state_found (keyed key disk) (seal_bytes c s.index meta_state_key plaintext s).0
          plaintext _ (ap (λ m. m.0) left)
          (rw (← same_key) (open_bytes-seal_bytes c sound s.index meta_state_key plaintext s))
          decodes sixteen

    -- With a sound AEAD, a store id of 16 bytes and an encoding of the state record that decodes:
    -- a store that is opened with the key under which its state record was last written goes on
    -- with that record's store id, and with its number exactly where the record says that the
    -- shutdown was clean, the manifest of the index's rows is the one that it has, and every row
    -- but those of expired messages came back as an entry of the mail; elsewhere the number is one
    -- more.
    pub open_store_epoch :
        (now : ℕ) (fresh : Bytes)
        → (open_store c now fresh key disk).epoch ≡ record {
          store_id = epoch.store_id;
          number =
              if is_as_left listed disk
                && (clean
                    && eqb
                        (length (open_store c now fresh key disk).restored)
                        (rows_due c now (derive c key (codes "index")) disk.index_table))
              then epoch.number
              else epoch.number + 1;
        }
    open_store_epoch now fresh =
        open_store_continues now fresh key disk (state_of epoch clean listed) key_ok_written
          saved_state_written
        ∙ ground (
          arith,
          continuing_epoch_iff epoch clean listed disk,
          all_restored now fresh key disk key_ok_written,
        )
