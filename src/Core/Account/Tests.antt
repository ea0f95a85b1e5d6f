-- ===== src/Core/Account/Tests.antt =====
-- Runs of the theorems on exported sessions and on accounts, with stand-ins for the crates.
use dratchet.Base.{
  ◌≡◌, refl, true, none, some, [], ◌∷◌, bytes_eq, ok, lookup, replicate, all, bytes_beq,
  bytes_beq_iff, ◌==◌,
}
use dratchet.Base.Codecs.{Codec}
use dratchet.Core.Identity.{Signatures, verify_bundle}
use dratchet.Core.Ratchet.Keys.{Primitives}
use dratchet.Core.Ratchet.State.{RatchetState}
use dratchet.Core.Ratchet.Export.{ExportedRatchetState, export, import, to_exported}
use dratchet.Core.Ratchet.Export.RoundTrip.{IsTyped, import-export}
use dratchet.Core.Account.{
  Account, generate, rotate_signed_prekey, generate_one_time_prekeys, publish_bundle,
}
use dratchet.Core.Account.Bundle.{
  Signs, generated, rotated, restocked, verify_bundle-publish_bundle_reached,
}

abbrev primitives : Primitives
primitives = record {
  hmac = λ key tag. key;
  hkdf = λ salt ikm info n. replicate n 0;
  public_key = λ secret. secret;
  diffie_hellman = λ secret public. secret;
  was_contributory = λ shared. true;
  seal = λ key nonce aad m. some m;
  unseal = λ key nonce aad c. some c;
}

-- A signature is the message itself.
abbrev signatures : Signatures
signatures = record {
  sha256 = λ m. m;
  verify = λ key m signature. m == signature;
  sign = λ secret m. m;
  verifying_key = λ secret. replicate 32 7;
}

signatures-Signs : Signs signatures
signatures-Signs = record {
  width = λ secret. refl;
  accepts = λ secret m. (bytes_beq_iff m m).1 refl;
}

abbrev made : Account
made = generate primitives signatures (1 ∷ []) (2 ∷ []) (3 ∷ [])

abbrev turned : Account
turned = rotate_signed_prekey primitives signatures (4 ∷ []) 700_000 made

abbrev stocked : Account
stocked = (generate_one_time_prekeys primitives ((5 ∷ []) ∷ (6 ∷ []) ∷ []) turned).1

verify_bundle-publish_bundle_reached_example :
    verify_bundle signatures (publish_bundle signatures true stocked) ≡ ok tt
verify_bundle-publish_bundle_reached_example =
    verify_bundle-publish_bundle_reached primitives signatures true stocked signatures-Signs (
      restocked ((5 ∷ []) ∷ (6 ∷ []) ∷ []) turned
        (rotated (4 ∷ []) 700_000 made (generated (1 ∷ []) (2 ∷ []) (3 ∷ []))))

abbrev session : RatchetState
session = record {
  conversation_id = replicate 16 1;
  max_skip = 50;
  root_key = replicate 32 2;
  dh_self = some (replicate 32 3, replicate 32 4);
  dh_remote = some (replicate 32 5);
  sending_chain_key = none;
  receiving_chain_key = some (replicate 32 6);
  send_n = 1;
  recv_n = 4;
  prev_chain_len = 0;
  skipped = ((replicate 32 5, 1), replicate 32 7) ∷ ((replicate 32 5, 2), replicate 32 8) ∷ [];
  skipped_order = (replicate 32 5, 1) ∷ (replicate 32 5, 2) ∷ [];
  tracker = record { contiguous = some 0; out_of_order = 3 ∷ 5 ∷ [] };
}

-- A codec that reads every byte string as the one session.
abbrev codec : Codec ExportedRatchetState
codec = record { to_cbor = λ e. e.conversation_id; from_cbor = λ bytes. some (to_exported session) }

session-IsTyped : IsTyped session
unfolding lookup bytes_beq all
session-IsTyped = record {
  conversation = refl;
  root = refl;
  own = (refl, refl);
  remote = refl;
  sending = tt;
  receiving = refl;
  cache = (refl, refl, refl, (refl, refl, refl, tt));
  order = (refl, (refl, tt));
  numbers = (refl, (refl, tt));
}

import-export_example : import codec (export codec session) ≡ ok session
import-export_example = import-export codec session refl session-IsTyped
