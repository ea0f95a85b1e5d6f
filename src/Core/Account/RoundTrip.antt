-- ===== src/Core/Account/RoundTrip.antt =====
-- An account that was exported is imported as it was.
use dratchet.Base.{
  ℕ, ◌≡◌, refl, ap, sym, ◌∙◌, none, [], ◌∷◌, ◌++◌, nat_eq, ok, Map, insert, lookup, insert_fresh,
  map, arith,
}
use mathlib.Core.List.{append_assoc, append-nil}
use dratchet.Base.Codecs.{Codec, Decodes}
use dratchet.Core.Exports.{IsArray32, to_array32_lem}
use dratchet.Core.Ratchet.Keys.{Primitives}
use dratchet.Core.Prekey.{OneTimePrekey}
use dratchet.Core.Account.{Account}
use dratchet.Core.Account.Export.{
  ExportedAccount, ExportedOneTimePrekey, account_to_exported, import_one_time_prekeys,
  account_from_exported, export_account, import_account,
}

module _ (p : Primitives) where
  -- One-time prekeys under their own ids, each of which is filed once.
  abbrev pub IsStock : Map ℕ OneTimePrekey → Map ℕ OneTimePrekey → Type 0
  IsStock before [] = Unit {0}
  IsStock before ((id, otp) ∷ rest) =
      (otp.id ≡ id)
      × (otp.key ≡ p.public_key otp.secret)
      × IsArray32 otp.secret
      × (lookup id before ≡ none)
      × IsStock (before ++ (id, otp) ∷ []) rest

  -- Secrets of 32 bytes, with the public keys that belong to them.
  pub record IsPaired (a : Account) : Type 0 where
    pub identity : IsArray32 a.identity
    pub dh_secret : IsArray32 a.identity_dh_secret
    pub dh_public : a.identity_dh_public ≡ p.public_key a.identity_dh_secret
    pub prekey_secret : IsArray32 a.signed_prekey.secret
    pub prekey_public : a.signed_prekey.key ≡ p.public_key a.signed_prekey.secret
    pub stock : IsStock [] a.one_time_prekeys

  abbrev exported : ℕ × OneTimePrekey → ExportedOneTimePrekey
  exported entry = record { id = entry.1.id; secret = entry.1.secret }

  import_one_time_prekeys_lem :
      (m before : Map ℕ OneTimePrekey)
      → IsStock before m
      → import_one_time_prekeys p (map (exported) m) before ≡ ok (before ++ m)
  unfolding import_one_time_prekeys
  import_one_time_prekeys_lem [] before h = ap ok (sym (append-nil before))
  import_one_time_prekeys_lem ((id, otp) ∷ rest) before (filed, own, width, fresh, others) =
      let filed_otp : record { id = otp.id; secret = otp.secret; key = p.public_key otp.secret }
          ≡ otp =
        rw (← own) refl in
      rw (to_array32_lem otp.secret "one_time_prekeys[].secret" width, filed_otp)
        (ap (λ i. import_one_time_prekeys p (map (exported) rest) (insert i otp before)) filed
          ∙ rw (insert_fresh id otp before fresh)
              (import_one_time_prekeys_lem rest (before ++ (id, otp) ∷ []) others)
          ∙ ap ok (append_assoc before ((id, otp) ∷ []) rest))

  pub import_account-export_account :
      (codec : Codec ExportedAccount) (a : Account)
      → Decodes codec (account_to_exported a)
      → IsPaired a
      → import_account codec p (export_account codec a) ≡ ok a
  unfolding import_account export_account account_from_exported account_to_exported
  import_account-export_account codec a decodes t = ground (
    arith,
    decodes,
    to_array32_lem a.identity "identity_secret_key" t.identity,
    to_array32_lem a.identity_dh_secret "identity_dh_secret" t.dh_secret,
    to_array32_lem a.signed_prekey.secret "signed_prekey_secret" t.prekey_secret,
    import_one_time_prekeys_lem a.one_time_prekeys [] t.stock,
    t.dh_public,
    t.prekey_public,
  )
