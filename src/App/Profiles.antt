-- ===== src/App/Profiles.antt =====
-- app/src/lib.rs: publishing the device's own prekey bundle under a username, claiming it again after a restart,
-- and topping up the one-time prekeys. What the service answers is given ahead, one answer for each request.
pub mod Claims
mod Tests
use Prim.Native.String.{String}
use dratchet.Base.{
  ℕ, ◌+◌, Bool, true, false, not, Option, none, some, List, [], ◌∷◌, ◌++◌, Bytes, ok, err, eqb, ltb,
  map, take, if◌then◌else◌,
}
use dratchet.Base.Actions.{Method, ◌>>=◌, ◌>>◌, pure, gets}
use dratchet.Base.Codecs.{Codec}
use dratchet.Core.Account.{
  Account, generate_one_time_prekeys, rotate_signed_prekey, publish_bundle,
  signed_prekey_expires_at, signed_prekey_rotation_due,
}
use dratchet.Core.Account.Export.{ExportedAccount}
use dratchet.Core.Identity.{Signatures, PrekeyBundle, OneTimePrekeyPublic}
use dratchet.Server.Abuse.{solve_registration_pow}
use dratchet.Server.State.{PrekeyBundleWire, OneTimePrekeyWire}
use dratchet.Store.Db.{Platform, Db}
use dratchet.Store.Records.{OwnProfile}
use dratchet.Store.Peers.{save_own_profile, load_own_profile}
use dratchet.Store.Sessions.{save_account}
use dratchet.App.Errors.{Error, AppResult, connection, protocol, server_refused, username_taken}
use dratchet.App.Client.{of_store}

abbrev pub one_time_prekey_batch : ℕ
one_time_prekey_batch = 10

abbrev pub discriminator_retry_attempts : ℕ
discriminator_retry_attempts = 5

abbrev pub prekey_replenish_threshold : ℕ
prekey_replenish_threshold = 3

-- An `ErrorCode` is the number of its variant.
abbrev pub username_taken_code : ℕ
username_taken_code = 5

-- What comes of a request of the directory
pub data Reply : Type 0 where
  accepted : Reply
  refused_with : (code : ℕ) → String → Reply
  prekey_count : ℕ → Reply
  unexpected : Reply
  lost : Error → Reply

-- What the calls here change: the database, the account, and the connection with what it was asked to publish.
pub record Registrar : Type 0 where
  pub db : Db
  pub account : Account
  pub replies : List Reply
  pub published : List PrekeyBundleWire

abbrev pub Action : Type 0 → Type 0
Action A = Method Error Registrar A

-- What a call draws: the secret of a rotation, and those of a batch of one-time prekeys
pub record Draws : Type 0 where
  pub rotation : Bytes
  pub batch : List Bytes

pub data ProfileReconciliation : Type 0 where
  unregistered : ProfileReconciliation
  unchanged : OwnProfile → ProfileReconciliation
  discriminator_changed : (old new : OwnProfile) → ProfileReconciliation

unfoldable pub answer_of : Reply → AppResult (Unit {0})
answer_of accepted = ok tt
answer_of (refused_with code message) =
    if eqb code username_taken_code then err username_taken else err (server_refused code message)
answer_of (prekey_count n) = err (protocol "unexpected frame tag from PublishBundle")
answer_of unexpected = err (protocol "unexpected frame tag from PublishBundle")
answer_of (lost e) = err e

unfoldable pub count_of : Reply → AppResult ℕ
count_of (prekey_count n) = ok n
count_of (refused_with code message) = err (server_refused code message)
count_of (lost e) = err e
count_of accepted = err (protocol "unexpected frame")
count_of unexpected = err (protocol "unexpected frame")

-- The next answer, where the connection still gives one
unfoldable pub next_reply : {A : Type 0} → (Reply → AppResult A) → Action A
next_reply f s = elim s.replies [
  | [] ↦ (err (connection "connection already lost"), s)
  | reply ∷ replies ↦ (f reply, record s { replies = replies })
]

unfoldable pub publish_bundle_wire : PrekeyBundleWire → Action (Unit {0})
publish_bundle_wire wire s =
    next_reply answer_of (record s { published = s.published ++ wire ∷ [] })

unfoldable pub own_prekey_count : Action ℕ
own_prekey_count = next_reply count_of

abbrev pub one_time_prekey_wire : OneTimePrekeyPublic → OneTimePrekeyWire
one_time_prekey_wire otp = record { id = otp.id; key = otp.key }

abbrev pub profile_of : Bytes → PrekeyBundle → ℕ → OwnProfile
profile_of username bundle discriminator = record {
  username = username;
  discriminator = discriminator;
  signed_prekey_id = bundle.signed_prekey.id;
}

-- `fuel` bounds the search for the proof of work, and `now` is the time in seconds.
module _ (v : Platform) (g : Signatures) (accounts : Codec ExportedAccount)
    (profiles : Codec OwnProfile) (fuel now : ℕ) where
  unfoldable pub wire_of :
      Account → PrekeyBundle → List OneTimePrekeyWire → Bytes → ℕ → PrekeyBundleWire
  wire_of account bundle one_time_prekeys username discriminator = record {
    username = username;
    discriminator = discriminator;
    identity_key = bundle.identity_public_key;
    identity_dh_public = bundle.identity_dh_public;
    identity_dh_signature = bundle.identity_dh_signature;
    signed_prekey_id = bundle.signed_prekey.id;
    signed_prekey = bundle.signed_prekey.key;
    signed_prekey_sig = bundle.signed_prekey.signature;
    signed_prekey_expires_at = signed_prekey_expires_at account;
    one_time_prekeys = one_time_prekeys;
    registration_pow =
        solve_registration_pow g username discriminator bundle.identity_public_key fuel;
  }

  -- Both records of a claim that the service granted
  unfoldable pub save_claim : OwnProfile → Registrar → Registrar
  save_claim profile s = record s {
    db = save_own_profile v profiles profile (save_account v accounts s.account s.db);
  }

  -- One round of the loop, on the answer: it ends unless the username was taken.
  unfoldable pub settle_claim :
      OwnProfile
      → Action OwnProfile
      → AppResult (Unit {0}) × Registrar
      → AppResult OwnProfile × Registrar
  settle_claim profile further (answer, asked) = elim answer [
    | ok _ ↦ (ok profile, save_claim profile asked)
    | err username_taken ↦ further asked
    | err e ↦ (err e, asked)
  ]

  -- The loop over the candidates
  unfoldable pub try_candidates :
      PrekeyBundle → List OneTimePrekeyWire → Bytes → List ℕ → Action OwnProfile
  try_candidates bundle one_time_prekeys username [] s = (err username_taken, s)
  try_candidates bundle one_time_prekeys username (discriminator ∷ candidates) s =
      settle_claim (profile_of username bundle discriminator)
        (λ asked. try_candidates bundle one_time_prekeys username candidates asked)
        (publish_bundle_wire (wire_of s.account bundle one_time_prekeys username discriminator) s)

  unfoldable pub rotate_if_due : Bytes → Account → Account
  rotate_if_due secret account =
      if signed_prekey_rotation_due now account
      then rotate_signed_prekey v.primitives g secret now account
      else account

  unfoldable pub publish_under_candidates : Draws → Bytes → List ℕ → Action OwnProfile
  publish_under_candidates draws username candidates s =
      let (publics, account) =
        generate_one_time_prekeys v.primitives draws.batch
          (rotate_if_due draws.rotation s.account) in
      let bundle = publish_bundle g false account in
      try_candidates bundle (map one_time_prekey_wire publics) username candidates
        (record s { account = account })

  -- `drawn` are random discriminators, of which a call takes five.
  unfoldable pub publish_own_bundle : Draws → Bytes → List ℕ → Action OwnProfile
  publish_own_bundle draws username drawn =
      publish_under_candidates draws username (take discriminator_retry_attempts drawn)

  unfoldable pub rename_own_profile : Draws → Bytes → List ℕ → Action OwnProfile
  rename_own_profile draws username drawn = publish_own_bundle draws username drawn

  unfoldable pub stored_profile : Action (Option OwnProfile)
  stored_profile s =
      let (r, db) = load_own_profile v profiles s.db in (of_store r, record s { db = db })

  -- The discriminator that is stored, and then random ones
  abbrev pub claims_again : OwnProfile → List ℕ → List ℕ
  claims_again existing drawn = existing.discriminator ∷ take discriminator_retry_attempts drawn

  abbrev pub reconciled : OwnProfile → OwnProfile → ProfileReconciliation
  reconciled existing new =
      if eqb new.discriminator existing.discriminator
      then unchanged new
      else discriminator_changed existing new

  unfoldable pub reconcile_found : Draws → List ℕ → Option OwnProfile → Action ProfileReconciliation
  reconcile_found draws drawn none = pure unregistered
  reconcile_found draws drawn (some existing) = do
    new ← publish_under_candidates draws existing.username (claims_again existing drawn)
    pure (reconciled existing new)

  unfoldable pub reconcile_own_profile : Draws → List ℕ → Action ProfileReconciliation
  reconcile_own_profile draws drawn = stored_profile >>= reconcile_found draws drawn

  unfoldable pub is_low : Action Bool
  is_low = do count ← own_prekey_count; pure (not (ltb prekey_replenish_threshold count))

  unfoldable pub republish : Draws → OwnProfile → List ℕ → Action Bool
  republish draws existing drawn = do
    profile ← publish_under_candidates draws existing.username (claims_again existing drawn)
    pure true

  unfoldable pub replenish_prekeys_if_low : Draws → List ℕ → Action Bool
  replenish_prekeys_if_low draws drawn = do
    found ← stored_profile
    elim found [
      | none ↦ pure false
      | some existing ↦ (do
        rotation_due ← gets (λ s. signed_prekey_rotation_due now s.account)
        low ← (if rotation_due then pure true else is_low)
        if low then republish draws existing drawn else pure false)
    ]
