-- ===== src/Server/Directory/Prekeys.antt =====
-- A one-time prekey is handed out once.
use dratchet.Base.{
  ℕ, ◌≡◌, refl, Bool, true, false, Option, none, some, List, [], ◌∷◌, Bytes, bytes_eq, nat_eq,
  pair_eq, ok, arith, Map, lookup, lookup-insert_self, lookup-remove_self, if◌then◌else◌,
}
use dratchet.Server.Abuse.{Fingerprint, ConnectionId}
use dratchet.Server.State.{Inner, StoredBundle, UsernameKey, OneTimePrekeyWire}
use dratchet.Server.Mailbox.{Moment}
use dratchet.Server.Directory.{
  fetch_bundle, fetch_target, hand_out, take_prekey, meter_bundle, record_exhaustion,
  record_evidence, fetched,
}

-- `target`'s pool without the prekey `otp`, in the directory and, with persistence on, as the record
-- that was written last.
abbrev pub Withdrawn : Bool → Fingerprint → OneTimePrekeyWire → Inner → Type 0
Withdrawn persistence target otp s =
    (stored : StoredBundle) × (lookup target s.directory ≡ some stored)
    × (lookup otp.id stored.one_time_prekeys ≡ none)
    × (if persistence
        then ((older : List (Fingerprint × StoredBundle)) × (s.persisted
              ≡ (target, stored) ∷ older))
        else Unit {0})

take_prekey-removed :
    (stored : StoredBundle) (otp : OneTimePrekeyWire)
    → (take_prekey stored).0 ≡ some otp
    → lookup otp.id (take_prekey stored).1.one_time_prekeys ≡ none
unfolding take_prekey
take_prekey-removed stored otp h = go stored.one_time_prekeys h
  where
    go :
        (pool : Map ℕ Bytes)
        → (take_prekey (record stored { one_time_prekeys = pool })).0 ≡ some otp
        → lookup otp.id (take_prekey (record stored { one_time_prekeys = pool })).1.one_time_prekeys
          ≡ none
    go [] h = absurd (ground (arith, h))
    go ((id, key) ∷ pool) h = ground (arith, h, lookup-remove_self id ((id, key) ∷ pool))

pub hand_out-Withdrawn :
    (persistence : Bool) (fetcher : Option Fingerprint) (target : Fingerprint)
    (stored : StoredBundle) (otp : OneTimePrekeyWire) (s : Inner)
    → (take_prekey stored).0 ≡ some otp
    → Withdrawn persistence target otp (hand_out persistence fetcher target stored s).1
unfolding hand_out record_exhaustion record_evidence
hand_out-Withdrawn true none target stored otp s h = rw h (
  (take_prekey stored).1,
  lookup-insert_self target (take_prekey stored).1 s.directory,
  take_prekey-removed stored otp h,
  (s.persisted, refl),
)
hand_out-Withdrawn true (some f) target stored otp s h = rw h (
  (take_prekey stored).1,
  lookup-insert_self target (take_prekey stored).1 s.directory,
  take_prekey-removed stored otp h,
  (s.persisted, refl),
)
hand_out-Withdrawn false none target stored otp s h = rw h (
  (take_prekey stored).1,
  lookup-insert_self target (take_prekey stored).1 s.directory,
  take_prekey-removed stored otp h,
  tt,
)
hand_out-Withdrawn false (some f) target stored otp s h = rw h (
  (take_prekey stored).1,
  lookup-insert_self target (take_prekey stored).1 s.directory,
  take_prekey-removed stored otp h,
  tt,
)

fetch_bundle_named :
    (persistence : Bool) (now : Moment) (key : UsernameKey) (fetcher : Option Fingerprint)
    (id : ConnectionId) (target : Fingerprint) (s : Inner)
    → lookup key s.username_index ≡ some target
    → fetch_bundle persistence now key fetcher id s
      ≡ fetch_target persistence now fetcher id target s
unfolding fetch_bundle
fetch_bundle_named persistence now key fetcher id target s named = ground (arith, named)

fetch_target_known :
    (persistence : Bool) (now : Moment) (fetcher : Option Fingerprint) (id : ConnectionId)
    (target : Fingerprint) (stored : StoredBundle) (s : Inner)
    → (meter_bundle now id target s).0 ≡ true
    → lookup target s.directory ≡ some stored
    → let (answer, after) =
        hand_out persistence fetcher target stored (meter_bundle now id target s).1 in
      fetch_target persistence now fetcher id target s ≡ (ok answer, after)
unfolding fetch_target
fetch_target_known persistence now fetcher id target stored s granted known =
    ground (arith, granted, known)

-- A FetchBundle of an indexed name whose target is in the directory with a prekey left, and that
-- the limiter grants, answers with that bundle and that prekey, and the prekey is then gone from
-- the target's pool, in memory and, with persistence on, in the record written last.
pub fetch_bundle_consumes :
    (persistence : Bool) (now : Moment) (key : UsernameKey) (fetcher : Option Fingerprint)
    (id : ConnectionId) (target : Fingerprint) (stored : StoredBundle) (otp : OneTimePrekeyWire)
    (s : Inner)
    → lookup key s.username_index ≡ some target
    → (meter_bundle now id target s).0 ≡ true
    → lookup target s.directory ≡ some stored
    → (take_prekey stored).0 ≡ some otp
    → let (answer, after) = fetch_bundle persistence now key fetcher id s in
      (answer ≡ ok (some (fetched stored.bundle (some otp))))
      × Withdrawn persistence target otp after
unfolding hand_out
fetch_bundle_consumes persistence now key fetcher id target stored otp s named granted known left =
    let metered : Inner = (meter_bundle now id target s).1 in
    rw
      (
        fetch_bundle_named persistence now key fetcher id target s named,
        fetch_target_known persistence now fetcher id target stored s granted known,
      )
      (rw left refl, hand_out-Withdrawn persistence fetcher target stored otp metered left)
