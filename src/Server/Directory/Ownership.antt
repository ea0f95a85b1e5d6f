-- ===== src/Server/Directory/Ownership.antt =====
-- Who owns a username, and that the indexes agree with the directory.
use dratchet.Base.{
  ◌≡◌, sym, ◌≢◌, Bool, some, bytes_eq, nat_eq, pair_eq, ok, arith, lookup, lookup-insert,
  lookup-insert_self, [], lookup-remove, ◌⊎◌, inl, inr, Eq, Bool-cases, Option-cases,
}
use dratchet.Core.Identity.{Signatures, fingerprint_of_public_key}
use dratchet.Server.Abuse.{Fingerprint}
use dratchet.Server.State.{Inner, StoredBundle, UsernameKey, PrekeyBundleWire, register_bundle}
use dratchet.Server.Directory.{
  collect_prekeys, username_key, check_contents, claim_username, release_username, store_bundle,
  publish_bundle,
}

abbrev pub key_eq : Eq UsernameKey
key_eq = pair_eq

-- Every published bundle's name is indexed to its own identity.
abbrev pub IsIndexed : Inner → Type 0
IsIndexed s =
    (fp : Fingerprint) (stored : StoredBundle)
    → lookup fp s.directory ≡ some stored
    → lookup (stored.bundle.username, stored.bundle.discriminator) s.username_index ≡ some fp

-- The index after the name that was published before is released.
release_lookup :
    (fp owner : Fingerprint) (key j : UsernameKey) (s : Inner)
    → IsIndexed s
    → lookup j s.username_index ≡ some owner
    → owner ≢ fp
    → lookup j (release_username fp key s).username_index ≡ some owner
unfolding release_username
release_lookup fp owner key j s indexed h other = elim (Option-cases (lookup fp s.directory)) [
  | inl absent ↦ rw (absent, release_username) h
  | inr (existing, e) ↦
      let mine = indexed fp existing e in
      let previous = username_key existing.bundle in
      elim (Bool-cases (key_eq.beq previous key)) [
        | inl same ↦ rw (e, release_username, same) h
        | inr differs ↦ elim (Bool-cases (key_eq.beq previous j)) [
          | inl clash ↦ absurd (ground (arith, mine, h, other, (key_eq.decides previous j).0 clash))
          | inr apart ↦
              rw (e, release_username, differs, lookup-remove j previous s.username_index, apart) h
        ]
      ]
]

-- Releasing a name leaves the directory alone.
pub release_directory :
    (fp : Fingerprint) (key : UsernameKey) (s : Inner)
    → (release_username fp key s).directory ≡ s.directory
unfolding release_username
release_directory fp key s = ground arith

-- `publish_bundle` fails and changes nothing, or it was allowed and stored the bundle.
pub publish_bundle_cases :
    (g : Signatures) (persistence : Bool) (w : PrekeyBundleWire) (s : Inner)
    → let fp = fingerprint_of_public_key g w.identity_key in
      ((publish_bundle g persistence w s).1 ≡ s)
      ⊎ ((claim_username g fp w s ≡ ok tt)
          × ((publish_bundle g persistence w s).1 ≡ store_bundle g persistence fp w s))
unfolding publish_bundle check_contents
publish_bundle_cases g persistence w s = ground arith

-- A publish takes no name from anyone: whoever owns a username keeps it, whatever another identity
-- publishes and however that ends, as long as every published name is indexed to its own identity.
pub publish_bundle_keeps_owner :
    (g : Signatures) (persistence : Bool) (w : PrekeyBundleWire) (key : UsernameKey)
    (owner : Fingerprint) (s : Inner)
    → IsIndexed s
    → lookup key s.username_index ≡ some owner
    → owner ≢ fingerprint_of_public_key g w.identity_key
    → lookup key (publish_bundle g persistence w s).1.username_index ≡ some owner
unfolding store_bundle register_bundle claim_username
publish_bundle_keeps_owner g persistence w key owner s indexed h other =
    let fp = fingerprint_of_public_key g w.identity_key in
    elim (publish_bundle_cases g persistence w s) [
      | inl unchanged ↦ rw unchanged h
      | inr (allowed, stored) ↦ elim (Bool-cases (key_eq.beq (username_key w) key)) [
        | inl same ↦ absurd (
            ground (
              arith,
              allowed,
              h,
              other,
              (key_eq.decides (username_key w) key).0 same,
              bytes_eq.decides owner fp,
            ))
        | inr differs ↦
            let kept = release_lookup fp owner (username_key w) key s indexed h other in
            ground (
              arith,
              stored,
              differs,
              kept,
              lookup-insert key (username_key w) fp
                  (release_username fp (username_key w) s).username_index,
            )
      ]
    ]

pub publish_bundle-IsIndexed :
    (g : Signatures) (persistence : Bool) (w : PrekeyBundleWire) (s : Inner)
    → IsIndexed s
    → IsIndexed (publish_bundle g persistence w s).1
unfolding store_bundle register_bundle
publish_bundle-IsIndexed g persistence w s indexed fp' stored' h =
    let fp = fingerprint_of_public_key g w.identity_key in
    elim (publish_bundle_cases g persistence w s) [
      | inl unchanged ↦ rw unchanged (indexed fp' stored' (rw unchanged at h))
      | inr (allowed, published) ↦
          let stored : StoredBundle = record {
            bundle = w;
            one_time_prekeys = collect_prekeys w.one_time_prekeys [];
          } in
          elim (Bool-cases (bytes_eq.beq fp fp')) [
            | inl same ↦
                let fps = (bytes_eq.decides fp fp').0 same in
                let it : stored ≡ stored' = ground (
                  arith,
                  published,
                  h,
                  same,
                  lookup-insert fp' fp stored s.directory,
                  release_directory fp (username_key w) s,
                ) in
                let index = (release_username fp (username_key w) s).username_index in
                let here = lookup-insert_self (username_key w) fp index in
                ground (arith, published, it, fps, here)
            | inr other ↦
                let old : lookup fp' s.directory ≡ some stored' = ground (
                  arith,
                  published,
                  h,
                  other,
                  lookup-insert fp' fp stored s.directory,
                  release_directory fp (username_key w) s,
                ) in
                publish_bundle_keeps_owner g persistence w (username_key stored'.bundle) fp' s
                  indexed (indexed fp' stored' old)
                  (λ e. absurd (ground (arith, other, (bytes_eq.decides fp fp').1 (sym e))))
          ]
    ]
