-- ===== src/Server/Tests.antt =====
-- Runs of the service's theorems on a small state.
use mathlib.Core.List.{filter_map}
use dratchet.Base.{
  ℕ, ◌+◌, ◌-◌, ◌*◌, ◌≤◌, ◌≡◌, ◌≢◌, ◌⊎◌, refl, Bool, true, false, Option, none, some, List, [], ◌∷◌,
  Bytes, bytes_eq, nat_eq, pair_eq, ok, err, arith, length, lookup, replicate, map, filter,
  if◌then◌else◌, insert, length-filter-le, ◌==◌, ap, Bool-cases, inl, inr,
}
use dratchet.Core.Identity.{Signatures, fingerprint_of_public_key}
use dratchet.Server.Abuse.{
  Fingerprint, RateBucket, Limit, full, fetch_limit, bucket_at, take_token, sweep_stale,
  nanos_per_sec, allow,
}
use dratchet.Server.Abuse.Budget.{granted_to, final_time, granted_to_bound}
use dratchet.Server.State.{
  Inner, MailboxEntry, UsernameKey, StoredBundle, PrekeyBundleWire, OneTimePrekeyWire, or_default,
  prune_expired,
}
use dratchet.Server.Mailbox.{
  Config, Moment, MailboxWrite, found, mailbox_write, fetch_entries, written_by_count,
}
use dratchet.Server.Mailbox.Bounds.{IsLimited, insert-IsLimited, mailbox_write-IsLimited}
use dratchet.Server.Mailbox.Delivery.{fetch_entries_exact}
use dratchet.Server.Directory.{publish_bundle, fetch_bundle, fetched, take_prekey}
use dratchet.Server.Directory.Prekeys.{Withdrawn, fetch_bundle_consumes}
use dratchet.Server.Directory.Ownership.{key_eq, IsIndexed, publish_bundle_keeps_owner}
use dratchet.Server.Directory.Index.{IsResolved, Agrees, publish_bundle-Agrees}
use dratchet.Server.Presence.{auth_response, presence_subscribe, rendezvous, offer}
use dratchet.Server.Presence.Access.{IsRefused, no_evidence_no_contact}
use dratchet.Server.Presence.SignIn.{IsSigned, IsUnsigned, IsSignedIn, auth_response_sound}
use dratchet.Server.Errors.{auth_failed, already_authenticated}

abbrev pub alice : Fingerprint
alice = replicate 32 1

abbrev pub bob : Fingerprint
bob = replicate 32 2

abbrev pub box : Bytes
box = replicate 16 7

abbrev pub letter : Fingerprint → ℕ → MailboxEntry
letter writer expires = record {
  entry_id = replicate 16 expires;
  envelope = 72 ∷ [];
  expires_at = expires;
  written_by = writer;
  saved = false;
  flush_seq = 0;
}

abbrev alice_wire : PrekeyBundleWire
alice_wire = record {
  username = 97 ∷ [];
  discriminator = 1;
  identity_key = alice;
  identity_dh_public = replicate 32 3;
  identity_dh_signature = [];
  signed_prekey_id = 1;
  signed_prekey = replicate 32 4;
  signed_prekey_sig = [];
  signed_prekey_expires_at = 0;
  one_time_prekeys = [];
  registration_pow = none;
}

abbrev alice_stored : StoredBundle
alice_stored = record { bundle = alice_wire; one_time_prekeys = (5, replicate 32 6) ∷ [] }

abbrev pub service : Inner
service = record {
  directory = (alice, alice_stored) ∷ [];
  bootstrap_mailbox_index = [];
  username_index = ((97 ∷ [], 1), alice) ∷ [];
  presence = [];
  subscriptions = [];
  fetch_evidence = [];
  mailboxes = (box, letter alice 50 ∷ letter bob 60 ∷ letter alice 5 ∷ []) ∷ [];
  connections = [];
  fetch_rate_limiter = [];
  new_mailbox_rate_limiter = [];
  rendezvous_rate_limiter = [];
  mailbox_fetch_rate_limiter = [];
  mailbox_delete_rate_limiter = [];
  otp_exhaustion_attempts = [];
  memory_bytes = 3;
  next_flush_seq = 1;
  outboxes = [];
  persisted = [];
}

abbrev signatures : Signatures
signatures = record {
  sha256 = λ bytes. bytes;
  verify = λ key m signature. true;
  sign = λ key m. m;
  verifying_key = λ secret. secret;
}

abbrev config : Config
config = record { signatures = signatures; memory_limit = 100; mail_store = none }

abbrev noon : Moment
noon = record { instant = 10; wall = 10 }

-- A letter that is in the mail store
abbrev filed : MailboxEntry
filed = record (letter alice 70) { saved = true; envelope = [] }

abbrev filing_service : Inner
filing_service = record service {
  mailboxes = (box, letter alice 50 ∷ filed ∷ letter bob 60 ∷ []) ∷ [];
}

fetch_entries_exact_example :
    (fetch_entries
      (record config { mail_store = some (λ id. found (9 ∷ [])) })
      noon
      (some bob)
      box
      filing_service).0
    ≡ ok ((replicate 16 50, 72 ∷ []) ∷ (replicate 16 70, 9 ∷ []) ∷ [])
unfolding dratchet.Server.Abuse.mailbox_fetch_allow allow take_token bucket_at lookup filter_map
    filter dratchet.Base.bytes_beq dratchet.Server.State.bootstrap_mailbox_belongs_to_another
fetch_entries_exact_example =
    fetch_entries_exact (record config { mail_store = some (λ id. found (9 ∷ [])) }) noon bob box
      filing_service (refl, refl, refl)

abbrev letters : MailboxWrite
letters = record { mailbox_id = box; envelope = 73 ∷ []; ttl = 60 }

empty-IsLimited : IsLimited []
unfolding lookup written_by_count filter
empty-IsLimited id = (omega arith, λ writer. omega arith)

service-IsLimited : IsLimited service.mailboxes
unfolding insert written_by_count
service-IsLimited =
    let entries = letter alice 50 ∷ letter bob 60 ∷ letter alice 5 ∷ [] in
    insert-IsLimited box entries [] empty-IsLimited
      (omega arith, λ writer. omega (arith, length-filter-le (λ e. e.written_by == writer) entries))

mailbox_write-IsLimited_example :
    IsLimited
      (mailbox_write config noon
        (9 ∷ [])
        (some bob)
        (replicate 16 8)
        (λ s. (true, s))
        letters
        service).1.mailboxes
mailbox_write-IsLimited_example =
    mailbox_write-IsLimited config noon (9 ∷ []) (some bob) (replicate 16 8) (λ s. (true, s))
      letters service (λ t h. h) service-IsLimited

abbrev prekey : OneTimePrekeyWire
prekey = record { id = 5; key = replicate 32 6 }

fetch_bundle_consumes_example :
    let (answer, after) = fetch_bundle true noon (97 ∷ [], 1) (some bob) (9 ∷ []) service in
    (answer ≡ ok (some (fetched alice_wire (some prekey)))) × Withdrawn true alice prekey after
unfolding lookup dratchet.Server.Abuse.fetch_allow allow take_token bucket_at take_prekey
    dratchet.Base.bytes_beq
fetch_bundle_consumes_example =
    fetch_bundle_consumes true noon (97 ∷ [], 1) (some bob) (9 ∷ []) alice alice_stored prekey
      service refl refl refl refl

abbrev bob_wire : PrekeyBundleWire
bob_wire = record alice_wire { identity_key = bob }

service-IsIndexed : IsIndexed service
unfolding lookup dratchet.Base.bytes_beq
service-IsIndexed fp stored h = elim (Bool-cases (bytes_eq.beq alice fp)) [
  | inl same ↦
      let known : alice_stored ≡ stored = ground (arith, rw same at h) in
      rw (← known) (ap some ((bytes_eq.decides alice fp).0 same))
  | inr other ↦ absurd (ground (arith, rw other at h))
]

alice-ne-bob : alice ≢ bob
unfolding dratchet.Base.bytes_beq
alice-ne-bob h = absurd (ground (arith, (bytes_eq.decides alice bob).1 h))

publish_bundle_keeps_owner_example :
    lookup (97 ∷ [], 1) (publish_bundle signatures true bob_wire service).1.username_index
    ≡ some alice
unfolding lookup fingerprint_of_public_key dratchet.Base.bytes_beq
publish_bundle_keeps_owner_example =
    publish_bundle_keeps_owner signatures true bob_wire (97 ∷ [], 1) alice service service-IsIndexed
      refl alice-ne-bob

service-IsResolved : IsResolved service
unfolding lookup dratchet.Base.bytes_beq
service-IsResolved key owner h =
    let name : UsernameKey = (97 ∷ [], 1) in
    elim (Bool-cases (key_eq.beq name key)) [
      | inl same ↦
          let known : some alice ≡ some owner = rw same at h in
          let mine : alice ≡ owner = ground (arith, known) in
          (alice_stored, rw (← mine) refl, (key_eq.decides name key).0 same)
      | inr other ↦ absurd (ground (arith, rw other at h))
    ]

-- Alice takes another discriminator.
publish_bundle-Agrees_example :
    Agrees (publish_bundle signatures true (record alice_wire { discriminator = 2 }) service).1
publish_bundle-Agrees_example =
    publish_bundle-Agrees signatures true (record alice_wire { discriminator = 2 }) service
      (service-IsIndexed, service-IsResolved)

no_evidence_no_contact_example :
    IsRefused (rendezvous offer noon (9 ∷ []) (some bob) alice (1 ∷ []) [] service) service
    × IsRefused (presence_subscribe (9 ∷ []) (some bob) alice service) service
unfolding dratchet.Server.Presence.has_evidence lookup
no_evidence_no_contact_example =
    no_evidence_no_contact offer noon (9 ∷ []) bob alice (1 ∷ []) [] service refl

auth_response_sound_example :
    ((Path (Option Fingerprint) none none)
      × IsSigned signatures (3 ∷ []) bob (4 ∷ [])
      × IsSignedIn
          (9 ∷ [])
          bob
          (auth_response signatures (9 ∷ []) (3 ∷ []) none bob (4 ∷ []) service))
    ⊎ ((Path (Option Fingerprint) none none)
        × IsUnsigned signatures (3 ∷ []) bob (4 ∷ [])
        × (auth_response signatures (9 ∷ []) (3 ∷ []) none bob (4 ∷ []) service
            ≡ (err auth_failed, service)))
    ⊎ (¬ (Path (Option Fingerprint) none none)
        × (auth_response signatures (9 ∷ []) (3 ∷ []) none bob (4 ∷ []) service
            ≡ (err already_authenticated, service)))
unfolding fingerprint_of_public_key
auth_response_sound_example =
    auth_response_sound signatures (9 ∷ []) (3 ∷ []) none bob (4 ∷ []) service

abbrev requests : List (ℕ × Fingerprint)
requests = (1, alice) ∷ (2, alice) ∷ (3, bob) ∷ []

granted_to_bound_example :
    granted_to fetch_limit alice requests [] * fetch_limit.period
    ≤ full fetch_limit + (final_time 0 requests - 0)
unfolding lookup
granted_to_bound_example =
    granted_to_bound fetch_limit alice 0 requests [] refl
      (omega arith, (omega arith, (omega arith, tt)))

abbrev idle : List (Fingerprint × RateBucket)
idle = (alice, record { tokens = 0; last_refill = 0 }) ∷ []
