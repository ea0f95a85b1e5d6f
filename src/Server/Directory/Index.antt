-- ===== src/Server/Directory/Index.antt =====
-- server/src/ws.rs: the index of usernames against the directory.
use dratchet.Base.{
  ◌≡◌, ◌≢◌, Bool, some, bytes_eq, nat_eq, pair_eq, arith, lookup, lookup-insert, [], lookup-remove,
  inl, inr, Bool-cases, Option-cases,
}
use dratchet.Core.Identity.{Signatures, fingerprint_of_public_key}
use dratchet.Server.Abuse.{Fingerprint}
use dratchet.Server.State.{Inner, StoredBundle, UsernameKey, PrekeyBundleWire, register_bundle}
use dratchet.Server.Directory.{
  collect_prekeys, username_key, release_username, store_bundle, publish_bundle,
}
use dratchet.Server.Directory.Ownership.{
  key_eq, IsIndexed, release_directory, publish_bundle_cases, publish_bundle-IsIndexed,
}

-- Every indexed name is the name of the bundle that its identity has published.
abbrev pub IsResolved : Inner → Type 0
IsResolved s =
    (key : UsernameKey) (owner : Fingerprint)
    → lookup key s.username_index ≡ some owner
    → (stored : StoredBundle) × (lookup owner s.directory ≡ some stored)
      × ((stored.bundle.username, stored.bundle.discriminator) ≡ key)

abbrev pub Agrees : Inner → Type 0
Agrees s = IsIndexed s × IsResolved s

-- After a release, a name that is still indexed, and is not the one that is published, belongs to another.
release_resolved :
    (fp owner : Fingerprint) (key j : UsernameKey) (s : Inner)
    → IsResolved s
    → key ≢ j
    → lookup j (release_username fp key s).username_index ≡ some owner
    → (lookup j s.username_index ≡ some owner) × (owner ≢ fp)
unfolding release_username
release_resolved fp owner key j s resolved apart h = elim (Option-cases (lookup fp s.directory)) [
  | inl absent ↦
      let same : lookup j s.username_index ≡ some owner = rw (absent, release_username) at h in
      let (stored, has, named) = resolved j owner same in
      (same, λ mine. absurd (ground (arith, absent, has, mine)))
  | inr (existing, e) ↦
      let previous = username_key existing.bundle in
      elim (Bool-cases (key_eq.beq previous key)) [
        | inl kept ↦
            let same : lookup j s.username_index ≡ some owner =
              rw (e, release_username, kept) at h in
            let (stored, has, named) = resolved j owner same in
            (
              same,
              λ mine. absurd (
                  ground (arith, e, has, mine, named, apart, (key_eq.decides previous key).0 kept)),
            )
        | inr differs ↦
            let removed = lookup-remove j previous s.username_index in
            let left = rw (e, release_username, differs, removed) at h in
            elim (Bool-cases (key_eq.beq previous j)) [
              | inl gone ↦ absurd (ground (arith, rw gone at left))
              | inr other ↦
                  let same : lookup j s.username_index ≡ some owner = rw other at left in
                  let (stored, has, named) = resolved j owner same in
                  (
                    same,
                    λ mine.
                        absurd (
                          ground
                            (arith, e, has, mine, named, other, (key_eq.decides previous j).1)),
                  )
            ]
      ]
]

publish_bundle-IsResolved :
    (g : Signatures) (persistence : Bool) (w : PrekeyBundleWire) (s : Inner)
    → IsResolved s
    → IsResolved (publish_bundle g persistence w s).1
unfolding store_bundle register_bundle
publish_bundle-IsResolved g persistence w s resolved key owner h =
    let fp = fingerprint_of_public_key g w.identity_key in
    let new : StoredBundle = record {
      bundle = w;
      one_time_prekeys = collect_prekeys w.one_time_prekeys [];
    } in
    let released = release_username fp (username_key w) s in
    elim (publish_bundle_cases g persistence w s) [
      | inl unchanged ↦ rw unchanged (resolved key owner (rw unchanged at h))
      | inr (allowed, published) ↦
          let indexed = lookup-insert key (username_key w) fp released.username_index in
          let listed = lookup-insert owner fp new released.directory in
          elim (Bool-cases (key_eq.beq (username_key w) key)) [
            | inl same ↦
                let mine : fp ≡ owner = ground (arith, published, h, indexed, same) in
                (
                  new,
                  ground (arith, published, listed, (bytes_eq.decides fp owner).1 mine),
                  (key_eq.decides (username_key w) key).0 same,
                )
            | inr differs ↦
                let before : lookup key released.username_index ≡ some owner =
                  ground (arith, published, h, indexed, differs) in
                let (known, other) =
                  release_resolved fp owner (username_key w) key s resolved
                    (λ e.
                      absurd (ground (arith, differs, (key_eq.decides (username_key w) key).1 e)))
                    before in
                let (stored, has, named) = resolved key owner known in
                (
                  stored,
                  ground (
                    arith,
                    published,
                    listed,
                    has,
                    other,
                    (bytes_eq.decides fp owner).0,
                    release_directory fp (username_key w) s,
                  ),
                  named,
                )
          ]
    ]

-- If the index of usernames and the directory agree, they agree after a publish, whatever is
-- published and however that ends: every published name is indexed to its own identity, and every
-- indexed name is the one that its identity has published, so that no name of before a rename
-- resolves any more.
pub publish_bundle-Agrees :
    (g : Signatures) (persistence : Bool) (w : PrekeyBundleWire) (s : Inner)
    → Agrees s
    → Agrees (publish_bundle g persistence w s).1
publish_bundle-Agrees g persistence w s (indexed, resolved) = (
  publish_bundle-IsIndexed g persistence w s indexed,
  publish_bundle-IsResolved g persistence w s resolved,
)
