-- ===== src/App/Profiles/Claims.antt =====
-- app/src/lib.rs: which username and discriminator a device comes to have.
use mathlib.Core.List.{append_assoc}
use dratchet.Base.{
  ℕ, ◌≡◌, refl, ap, ◌∙◌, false, some, List, [], ◌∷◌, ◌++◌, Bytes, ok, err, length, Result,
  replicate, map, take, eqb, if◌then◌else◌,
}
use dratchet.Base.Actions.{pure}
use dratchet.Base.Endings.{bind_ok}
use dratchet.Base.Codecs.{Codec}
use dratchet.Core.Account.{Account, generate_one_time_prekeys, publish_bundle}
use dratchet.Core.Account.Export.{ExportedAccount}
use dratchet.Core.Identity.{Signatures, PrekeyBundle}
use dratchet.Server.State.{PrekeyBundleWire, OneTimePrekeyWire}
use dratchet.Store.Db.{Platform}
use dratchet.Store.Records.{OwnProfile}
use dratchet.Store.Peers.{save_own_profile}
use dratchet.Store.Sessions.{save_account}
use dratchet.App.Errors.{Error, username_taken}
use dratchet.App.Profiles.{
  Reply, accepted, refused_with, username_taken_code, Registrar, Draws, unchanged,
  discriminator_changed, answer_of, next_reply, publish_bundle_wire, one_time_prekey_wire,
  profile_of, wire_of, save_claim, settle_claim, try_candidates, rotate_if_due,
  publish_under_candidates, stored_profile, reconciled, discriminator_retry_attempts,
  reconcile_found, reconcile_own_profile,
}

abbrev pub taken : Reply
taken = refused_with username_taken_code "username taken"

module _ (v : Platform) (g : Signatures) (accounts : Codec ExportedAccount)
    (profiles : Codec OwnProfile) (fuel now : ℕ) where
  -- The account after the keys of a call, and the bundle that it publishes
  abbrev pub renewed : Draws → Account → Account
  renewed draws account =
      (generate_one_time_prekeys v.primitives draws.batch
        (rotate_if_due v g accounts profiles fuel now draws.rotation account)).1

  abbrev pub bundle_for : Draws → Account → PrekeyBundle
  bundle_for draws account = publish_bundle g false (renewed draws account)

  -- The names that were asked for
  abbrev pub names_asked : List PrekeyBundleWire → List (Bytes × ℕ)
  names_asked = map (λ w. (w.username, w.discriminator))

  -- A claim that was granted at the last of the requests for these discriminators, in this order: the
  -- account and the profile are stored, and the answers that follow are left.
  pub record IsClaimed (profile : OwnProfile) (account : Account) (tried : List ℕ)
      (rest : List Reply) (s t : Registrar) : Type 0 where
    pub replies : t.replies ≡ rest
    pub requests :
        names_asked t.published ≡ names_asked s.published ++ map (λ d. (profile.username, d)) tried
    pub account_kept : t.account ≡ account
    pub stored : t.db ≡ save_own_profile v profiles profile (save_account v accounts account s.db)

  abbrev asked : PrekeyBundleWire → List Reply → Registrar → Registrar
  asked wire rest s = record s { published = s.published ++ wire ∷ []; replies = rest }

  publish_bundle_wire_answered :
      (wire : PrekeyBundleWire) (reply : Reply) (rest : List Reply) (s : Registrar)
      → s.replies ≡ reply ∷ rest
      → publish_bundle_wire wire s ≡ (answer_of reply, asked wire rest s)
  unfolding publish_bundle_wire next_reply
  publish_bundle_wire_answered wire reply rest s h = rw (h, publish_bundle_wire) refl

  module _ (bundle : PrekeyBundle) (otps : List OneTimePrekeyWire) (username : Bytes) where
    names_asked-append :
        (xs ys : List PrekeyBundleWire) → names_asked (xs ++ ys) ≡ names_asked xs ++ names_asked ys
    names_asked-append [] ys = refl
    names_asked-append (x ∷ xs) ys =
        ap (λ rest. (x.username, x.discriminator) ∷ rest) (names_asked-append xs ys)

    abbrev try : List ℕ → Registrar → Result Error OwnProfile × Registrar
    try = try_candidates v g accounts profiles fuel now bundle otps username

    abbrev wire : ℕ → Registrar → PrekeyBundleWire
    wire d s = wire_of v g accounts profiles fuel now s.account bundle otps username d

    try_granted :
        (d : ℕ) (after : List ℕ) (rest : List Reply) (s : Registrar)
        → s.replies ≡ accepted ∷ rest
        → try (d ∷ after) s ≡ (
          ok (profile_of username bundle d),
          save_claim v g accounts profiles fuel now
              (profile_of username bundle d)
              (asked (wire d s) rest s),
        )
    unfolding try_candidates settle_claim answer_of
    try_granted d after rest s h =
        ap (settle_claim v g accounts profiles fuel now (profile_of username bundle d) (try after))
          (publish_bundle_wire_answered (wire d s) accepted rest s h)

    try_taken :
        (d : ℕ) (after : List ℕ) (rest : List Reply) (s : Registrar)
        → s.replies ≡ taken ∷ rest
        → try (d ∷ after) s ≡ try after (asked (wire d s) rest s)
    unfolding try_candidates settle_claim answer_of
    try_taken d after rest s h =
        ap (settle_claim v g accounts profiles fuel now (profile_of username bundle d) (try after))
          (publish_bundle_wire_answered (wire d s) taken rest s h)

    try_first_free :
        (before after : List ℕ) (d : ℕ) (rest : List Reply) (s : Registrar)
        → s.replies ≡ replicate (length before) taken ++ accepted ∷ rest
        → ((try (before ++ d ∷ after) s).0 ≡ ok (profile_of username bundle d))
          × IsClaimed
              (profile_of username bundle d)
              s.account
              (before ++ d ∷ [])
              rest
              s
              (try (before ++ d ∷ after) s).1
    unfolding save_claim wire_of
    try_first_free [] after d rest s h = rw (try_granted d after rest s h) (
      refl,
      record {
        replies = refl;
        requests = names_asked-append s.published (wire d s ∷ []);
        account_kept = refl;
        stored = refl;
      },
    )
    try_first_free (b ∷ before) after d rest s h =
        let left = replicate (length before) taken ++ accepted ∷ rest in
        let s1 = asked (wire b s) left s in
        let (r, c) = try_first_free before after d rest s1 refl in
        rw (try_taken b (before ++ d ∷ after) left s h) (
          r,
          record {
            replies = c.replies;
            requests =
                c.requests
                ∙ ap (λ n. n ++ map (λ e. (username, e)) (before ++ d ∷ []))
                    (names_asked-append s.published (wire b s ∷ []))
                ∙ append_assoc (names_asked s.published) ((username, b) ∷ [])
                    (map (λ e. (username, e)) (before ++ d ∷ []));
            account_kept = c.account_kept;
            stored = c.stored;
          },
        )

  -- A device that publishes its bundle takes the first of the candidates that the service grants:
  -- where the service answers that the candidates before it are taken and grants this one, the
  -- call gives the profile with this discriminator, has asked for each candidate up to it in turn
  -- and for none after it, and has stored the profile and the account with its renewed keys.
  pub publish_takes_first_free :
      (draws : Draws) (username : Bytes) (before after : List ℕ) (d : ℕ) (rest : List Reply)
      (s : Registrar)
      → s.replies ≡ replicate (length before) taken ++ accepted ∷ rest
      → let profile = profile_of username (bundle_for draws s.account) d in
        let (r, t) =
          publish_under_candidates v g accounts profiles fuel now draws username
            (before ++ d ∷ after)
            s in
        (r ≡ ok profile) × IsClaimed profile (renewed draws s.account) (before ++ d ∷ []) rest s t
  unfolding publish_under_candidates
  publish_takes_first_free draws username before after d rest s h =
      let (publics, account) =
        generate_one_time_prekeys v.primitives draws.batch
          (rotate_if_due v g accounts profiles fuel now draws.rotation s.account) in
      let (r, c) =
        try_first_free (publish_bundle g false account) (map one_time_prekey_wire publics) username
          before after d rest (record s { account = account }) h in
      (
        r,
        record {
          replies = c.replies;
          requests = c.requests;
          account_kept = c.account_kept;
          stored = c.stored;
        },
      )

  try_all_taken :
      (bundle : PrekeyBundle) (otps : List OneTimePrekeyWire) (username : Bytes)
      (candidates : List ℕ) (rest : List Reply) (s : Registrar)
      → s.replies ≡ replicate (length candidates) taken ++ rest
      → let (r, t) = try bundle otps username candidates s in
        (r ≡ err username_taken) × (t.db ≡ s.db) × (t.replies ≡ rest)
  unfolding try_candidates
  try_all_taken bundle otps username [] rest s h = (refl, refl, h)
  try_all_taken bundle otps username (d ∷ candidates) rest s h =
      let left = replicate (length candidates) taken ++ rest in
      rw (try_taken bundle otps username d candidates left s h) (
        try_all_taken bundle otps username candidates rest
          (asked (wire bundle otps username d s) left s) refl)

  -- Where the service answers that every candidate is taken, the call ends with that error after
  -- one request for each, and the database is as it was.
  pub publish_all_taken :
      (draws : Draws) (username : Bytes) (candidates : List ℕ) (rest : List Reply) (s : Registrar)
      → s.replies ≡ replicate (length candidates) taken ++ rest
      → let (r, t) =
          publish_under_candidates v g accounts profiles fuel now draws username candidates s in
        (r ≡ err username_taken) × (t.db ≡ s.db) × (t.replies ≡ rest)
  unfolding publish_under_candidates
  publish_all_taken draws username candidates rest s h =
      let (publics, account) =
        generate_one_time_prekeys v.primitives draws.batch
          (rotate_if_due v g accounts profiles fuel now draws.rotation s.account) in
      try_all_taken (publish_bundle g false account) (map one_time_prekey_wire publics) username
        candidates rest (record s { account = account }) h

  reconcile_found_claims :
      (draws : Draws) (drawn before after : List ℕ) (d : ℕ) (existing : OwnProfile)
      (rest : List Reply) (s : Registrar)
      → existing.discriminator ∷ take discriminator_retry_attempts drawn ≡ before ++ d ∷ after
      → s.replies ≡ replicate (length before) taken ++ accepted ∷ rest
      → let profile = profile_of existing.username (bundle_for draws s.account) d in
        let (r, t) = reconcile_found v g accounts profiles fuel now draws drawn (some existing) s in
        (r
          ≡ ok (
              if eqb d existing.discriminator
              then unchanged profile
              else discriminator_changed existing profile))
        × IsClaimed profile (renewed draws s.account) (before ++ d ∷ []) rest s t
  unfolding reconcile_found
  reconcile_found_claims draws drawn before after d existing rest s order h =
      let (claimed, c) = publish_takes_first_free draws existing.username before after d rest s h in
      let profile = profile_of existing.username (bundle_for draws s.account) d in
      let call =
        publish_under_candidates v g accounts profiles fuel now draws existing.username
          (before ++ d ∷ after) in
      let ends =
        bind_ok call (λ new. pure (reconciled v g accounts profiles fuel now existing new)) s
          (call s).1 profile (ap (λ r. (r, (call s).1)) claimed) in
      rw (order, reconcile_found) (rw ends (refl, c))

  -- A device with a stored profile asks for its own discriminator first, and then for five random
  -- ones. Where the service grants `d`, after it refused those before it as taken, the device has
  -- asked under its stored username for just these, in this order; the profile with `d` and the
  -- account with its renewed keys are stored; and it learns whether its handle changed:
  -- `unchanged` exactly where `d` is the stored discriminator, and both profiles elsewhere.
  pub reconcile_own_profile_claims :
      (draws : Draws) (drawn before after : List ℕ) (d : ℕ) (existing : OwnProfile)
      (rest : List Reply) (s s1 : Registrar)
      → stored_profile v g accounts profiles fuel now s ≡ (ok (some existing), s1)
      → existing.discriminator ∷ take 5 drawn ≡ before ++ d ∷ after
      → s1.replies ≡ replicate (length before) taken ++ accepted ∷ rest
      → let profile : OwnProfile = record {
        username = existing.username;
        discriminator = d;
        signed_prekey_id = (bundle_for draws s1.account).signed_prekey.id;
      } in
        let (r, t) = reconcile_own_profile v g accounts profiles fuel now draws drawn s in
        (r
          ≡ ok (
              if eqb d existing.discriminator
              then unchanged profile
              else discriminator_changed existing profile))
        × IsClaimed profile (renewed draws s1.account) (before ++ d ∷ []) rest s1 t
  unfolding reconcile_own_profile
  reconcile_own_profile_claims draws drawn before after d existing rest s s1 found order h =
      let next = reconcile_found v g accounts profiles fuel now draws drawn in
      rw (bind_ok (stored_profile v g accounts profiles fuel now) next s s1 (some existing) found)
        (reconcile_found_claims draws drawn before after d existing rest s1 order h)
