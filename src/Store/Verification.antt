-- ===== src/Store/Verification.antt =====
-- store/src/verification.rs: QR codes and pairing codes. Rendering a QR code as an image is not
-- modelled; times are in seconds.
pub mod Attempts
use dratchet.Base.{
  ℕ, ◌+◌, ◌-◌, ◌/◌, ◌%◌, ◌*◌, Bool, true, false, not, ◌&&◌, ◌||◌, Option, none, some, List, [], ◌∷◌,
  Bytes, bytes_eq, codes, leb, ltb, ok_or, ok, err, if◌then◌else◌, ◌==◌,
}
use dratchet.Base.Actions.{Method, ◌>>=◌, ◌>>◌, pure, lift}
use dratchet.Store.Errors.{Error, StoreResult, malformed_record}
use dratchet.Store.Db.{Platform, Db, Action, identity, put_encrypted, get_encrypted, delete}
use dratchet.Base.Codecs.{Codec}

abbrev pub qr_validity_secs : ℕ
qr_validity_secs = 300

abbrev pub pairing_code_ttl_secs : ℕ
pairing_code_ttl_secs = 600

abbrev pub pairing_code_max_attempts : ℕ
pairing_code_max_attempts = 5

pub record QrVerificationPayload : Type 0 where
  pub username : Bytes
  pub discriminator : ℕ
  pub fingerprint : Bytes
  pub nonce : Bytes
  pub generated_at : ℕ

-- `random_nonce` is the draw of 16 bytes.
unfoldable pub new_qr_payload : Bytes → Bytes → ℕ → Bytes → ℕ → QrVerificationPayload
new_qr_payload random_nonce username discriminator fingerprint now = record {
  username = username;
  discriminator = discriminator;
  fingerprint = fingerprint;
  nonce = random_nonce;
  generated_at = now;
}

unfoldable pub is_stale : ℕ → QrVerificationPayload → Bool
is_stale now q = ltb qr_validity_secs (now - q.generated_at)

module _ (codec : Codec QrVerificationPayload) where
  unfoldable pub encode : QrVerificationPayload → Bytes
  encode = codec.to_cbor

  unfoldable pub decode : Bytes → StoreResult QrVerificationPayload
  decode bytes =
      ok_or (codec.from_cbor bytes) (malformed_record "not a valid QrVerificationPayload")

pub record PairingCode : Type 0 where
  pub code : Bytes
  pub generated_at : ℕ
  pub bound_to : Bytes
  pub attempts : ℕ

-- `format!("{:06}", n)` for `n` of at most six digits
abbrev pub six_digits : ℕ → Bytes
six_digits n =
    (b'0' + n / 100_000)
    ∷ (b'0' + n / 10_000 % 10)
    ∷ (b'0' + n / 1_000 % 10)
    ∷ (b'0' + n / 100 % 10)
    ∷ (b'0' + n / 10 % 10)
    ∷ (b'0' + n % 10)
    ∷ []

-- `random` is the draw of 32 bits.
unfoldable pub generate : ℕ → Bytes → ℕ → PairingCode
generate random bound_to now = record {
  code = six_digits (random % 1_000_000);
  generated_at = now;
  bound_to = bound_to;
  attempts = 0;
}

unfoldable pub is_expired : ℕ → PairingCode → Bool
is_expired now c = ltb pairing_code_ttl_secs (now - c.generated_at)

unfoldable pub attempts_exhausted : PairingCode → Bool
attempts_exhausted c = leb pairing_code_max_attempts c.attempts

unfoldable pub verify : Bytes → Bytes → ℕ → PairingCode → Bool × PairingCode
unfolding is_expired attempts_exhausted
verify attempted_code attempted_bound_to now c =
    if is_expired now c || attempts_exhausted c then (false, c) else (
      c.code == attempted_code && c.bound_to == attempted_bound_to,
      record c { attempts = c.attempts + 1 },
    )

abbrev pub pairing_code_key : Bytes
pairing_code_key = codes "pairing_code"

unfoldable pub clear_pairing_code : Db → Db
clear_pairing_code = delete pairing_code_key

module _ (v : Platform) (codec : Codec PairingCode) where
  unfoldable pub save_pairing_code : PairingCode → Db → Db
  save_pairing_code c = put_encrypted v identity pairing_code_key (codec.to_cbor c)

  unfoldable pub load_pairing_code : Action (Option PairingCode)
  load_pairing_code = do
    found ← get_encrypted v identity pairing_code_key
    elim found [
      | none ↦ pure none
      | some bytes ↦ (do
        c ← lift (
            ok_or (codec.from_cbor bytes)
              (malformed_record "stored pairing code is not valid CBOR for this shape"))
        pure (some c))
    ]
