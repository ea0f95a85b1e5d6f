-- ===== src/Server/Directory.antt =====
-- server/src/ws.rs: `publish_bundle` and `fetch_bundle`, the directory of prekey bundles. With
-- persistence on, what is written through to the directory's database is appended to `persisted`.
pub mod Ownership
pub mod Index
pub mod Prekeys
use dratchet.Base.{
  ℕ, ◌+◌, Bool, true, false, not, Option, none, some, List, [], ◌∷◌, Bytes, bytes_eq, nat_eq,
  pair_eq, ◌==◌, ltb, eqb, if◌then◌else◌, Map, lookup, insert, remove, length, any, ok, err, Result,
  is_some, ok_or,
}
use dratchet.Core.Identity.{
  Signatures, PrekeyBundle, SignedPrekeyPublic, verify_bundle, fingerprint_of_public_key,
  OneTimePrekeyPublic,
}
use dratchet.Core.Username.{has_only_allowed_characters, max_len}
use dratchet.Server.Errors.{
  Error, ServerResult, username_too_long, username_invalid_characters, too_many_one_time_prekeys,
  invalid_bundle, username_taken, proof_of_work_required, rate_limited,
}
use dratchet.Server.Abuse.{ConnectionId, Fingerprint, fetch_allow, verify_registration_pow}
use dratchet.Server.State.{
  Inner, StoredBundle, UsernameKey, PrekeyBundleWire, OneTimePrekeyWire, FetchedBundleWire,
  or_default, set_add, register_bundle, max_one_time_prekeys_per_publish, ack, bundle_result,
}
use dratchet.Server.State.Action.{Action, ◌>>=◌, ◌>>◌, pure, lift, gets, state, modify, fail_if}
use dratchet.Server.Mailbox.{Moment, exactly, reply}

abbrev pub username_key : PrekeyBundleWire → UsernameKey
username_key w = (w.username, w.discriminator)

-- `to_core_bundle` without a one-time prekey, as publishing calls it
unfoldable pub to_core_bundle : PrekeyBundleWire → ServerResult PrekeyBundle
to_core_bundle w =
    elim (exactly 32 w.identity_dh_public (invalid_bundle "identity_dh_public must be 32 bytes")) [
      | err e ↦ err e
      | ok identity_dh_public ↦
          elim (exactly 32 w.signed_prekey (invalid_bundle "signed_prekey must be 32 bytes")) [
            | err e ↦ err e
            | ok signed_prekey_public ↦ ok (record {
              identity_public_key = w.identity_key;
              identity_dh_public = identity_dh_public;
              identity_dh_signature = w.identity_dh_signature;
              signed_prekey = record {
                id = w.signed_prekey_id;
                key = signed_prekey_public;
                signature = w.signed_prekey_sig;
              };
              one_time_prekey = none;
            })
          ]
    ]

-- The checks of a bundle's own contents, before the state is looked at.
unfoldable pub check_contents : Signatures → PrekeyBundleWire → Action (Unit {0})
check_contents g w = do
  fail_if (ltb max_len (length w.username)) username_too_long
  fail_if (not (has_only_allowed_characters w.username)) username_invalid_characters
  fail_if (ltb max_one_time_prekeys_per_publish (length w.one_time_prekeys))
      too_many_one_time_prekeys
  core_bundle ← lift (to_core_bundle w)
  lift (elim (verify_bundle g core_bundle) [
    | ok _ ↦ ok tt
    | err _ ↦ err (invalid_bundle "signature verification failed")
  ])

unfoldable pub pow_solved : Signatures → PrekeyBundleWire → Bool
pow_solved g w = elim w.registration_pow [
  | none ↦ false
  | some solution ↦ verify_registration_pow g w.username w.discriminator w.identity_key solution
]

-- May `fp` publish under this name? Its owner may, anyone may take a free one for a proof of work.
unfoldable pub claim_username :
    Signatures → Fingerprint → PrekeyBundleWire → Inner → ServerResult (Unit {0})
claim_username g fp w s = elim (lookup (username_key w) s.username_index) [
  | some existing ↦ if existing == fp then ok tt else err username_taken
  | none ↦ if pow_solved g w then ok tt else err proof_of_work_required
]

unfoldable pub collect_prekeys : List OneTimePrekeyWire → Map ℕ Bytes → Map ℕ Bytes
collect_prekeys [] m = m
collect_prekeys (otp ∷ otps) m = collect_prekeys otps (insert otp.id otp.key m)

-- Give up the name that `fp` published under before, if it is another one.
unfoldable pub release_username : Fingerprint → UsernameKey → Inner → Inner
release_username fp key s = elim (lookup fp s.directory) [
  | none ↦ s
  | some existing ↦
      let previous = username_key existing.bundle in
      if previous == key
      then s
      else (record s { username_index = remove previous s.username_index })
]

abbrev pub persist : Bool → Fingerprint → StoredBundle → Inner → Inner
persist persistence fp stored s =
    if persistence then (record s { persisted = (fp, stored) ∷ s.persisted }) else s

-- The writes of a publish, once it is allowed.
unfoldable pub store_bundle : Signatures → Bool → Fingerprint → PrekeyBundleWire → Inner → Inner
store_bundle g persistence fp w s =
    let released = release_username fp (username_key w) s in
    let indexed : Inner = record released {
      username_index = insert (username_key w) fp released.username_index;
    } in
    let stored : StoredBundle = record {
      bundle = w;
      one_time_prekeys = collect_prekeys w.one_time_prekeys [];
    } in
    persist persistence fp stored (register_bundle g fp stored indexed)

unfoldable pub publish_bundle : Signatures → Bool → PrekeyBundleWire → Action (Unit {0})
publish_bundle g persistence w = do
  check_contents g w
  verdict ← gets (claim_username g (fingerprint_of_public_key g w.identity_key) w)
  lift verdict
  fail_if (any (λ otp. not (eqb (length otp.key) 32)) w.one_time_prekeys)
      (invalid_bundle "one-time prekey must be 32 bytes")
  modify (store_bundle g persistence (fingerprint_of_public_key g w.identity_key) w)

-- The first prekey of the pool, removed from it.
unfoldable pub take_prekey : StoredBundle → Option OneTimePrekeyWire × StoredBundle
take_prekey stored = elim stored.one_time_prekeys [
  | [] ↦ (none, stored)
  | (id, key) ∷ _ ↦ (
    some (record { id = id; key = key }),
    record stored { one_time_prekeys = remove id stored.one_time_prekeys },
  )
]

unfoldable pub fetched : PrekeyBundleWire → Option OneTimePrekeyWire → FetchedBundleWire
fetched b one_time_prekey = record {
  username = b.username;
  discriminator = b.discriminator;
  identity_key = b.identity_key;
  identity_dh_public = b.identity_dh_public;
  identity_dh_signature = b.identity_dh_signature;
  signed_prekey_id = b.signed_prekey_id;
  signed_prekey = b.signed_prekey;
  signed_prekey_sig = b.signed_prekey_sig;
  signed_prekey_expires_at = b.signed_prekey_expires_at;
  one_time_prekey = one_time_prekey;
}

unfoldable pub record_evidence : Option Fingerprint → Fingerprint → Inner → Inner
record_evidence none target s = s
record_evidence (some fetcher) target s = record s {
  fetch_evidence =
      insert fetcher (set_add target (or_default (lookup fetcher s.fetch_evidence)))
        s.fetch_evidence;
}

abbrev pub attempts : Option ℕ → ℕ
attempts none = 0
attempts (some n) = n

-- The count of the fetches that found the pool empty; its warning is only logged.
unfoldable pub record_exhaustion : Fingerprint → Option OneTimePrekeyWire → Inner → Inner
record_exhaustion target (some otp) s = s
record_exhaustion target none s = record s {
  otp_exhaustion_attempts =
      insert target (attempts (lookup target s.otp_exhaustion_attempts) + 1)
        s.otp_exhaustion_attempts;
}

abbrev pub persist_taken :
    Bool → Option OneTimePrekeyWire → Fingerprint → StoredBundle → Inner → Inner
persist_taken persistence taken target stored s =
    if is_some taken then persist persistence target stored s else s

-- Take a prekey from the target's bundle and answer with what is left of it.
unfoldable pub hand_out :
    Bool
    → Option Fingerprint
    → Fingerprint
    → StoredBundle
    → Inner
    → Option FetchedBundleWire × Inner
hand_out persistence fetcher target stored s =
    let (taken, shrunk) = take_prekey stored in
    let written : Inner = record s { directory = insert target shrunk s.directory } in
    (
      some (fetched stored.bundle taken),
      record_exhaustion target taken
          (record_evidence fetcher target (persist_taken persistence taken target shrunk written)),
    )

abbrev pub meter_bundle : Moment → ConnectionId → Fingerprint → Inner → Bool × Inner
meter_bundle now connection_id target s =
    let (granted, limiter) = fetch_allow now.instant connection_id target s.fetch_rate_limiter in
    (granted, record s { fetch_rate_limiter = limiter })

unfoldable pub fetch_target :
    Bool
    → Moment
    → Option Fingerprint
    → ConnectionId
    → Fingerprint
    → Action (Option FetchedBundleWire)
fetch_target persistence now fetcher connection_id target = do
  granted ← state (meter_bundle now connection_id target)
  fail_if (not granted) rate_limited
  entry ← gets (λ s. lookup target s.directory)
  elim entry [ none ↦ pure none | some stored ↦ state (hand_out persistence fetcher target stored) ]

unfoldable pub fetch_bundle :
    Bool
    → Moment
    → UsernameKey
    → Option Fingerprint
    → ConnectionId
    → Action (Option FetchedBundleWire)
fetch_bundle persistence now key fetcher connection_id = do
  entry ← gets (λ s. lookup key s.username_index)
  elim entry [
    | none ↦ pure none
    | some target ↦ fetch_target persistence now fetcher connection_id target
  ]
