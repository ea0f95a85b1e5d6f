-- ===== src/Core/Ratchet/Export.antt =====
-- core/src/ratchet.rs: a session as bytes, and back.
pub mod RoundTrip
use dratchet.Base.{
  ℕ, ◌≡◌, refl, Bool, not, Option, none, some, List, [], ◌∷◌, Bytes, bytes_eq, nat_eq, pair_eq,
  length, eqb, ok, err, ◌>>=◌, if◌then◌else◌, Map, insert, map, ok_or,
}
use dratchet.Base.Codecs.{Codec}
use dratchet.Core.Errors.{CoreResult, malformed_exported_state}
use dratchet.Core.Exports.{to_array32, to_array32_transpose}
use dratchet.Core.Ratchet.State.{RatchetState, SkippedId}
use dratchet.Core.Ratchet.Tracker.{Tracker, set_insert}

pub record ExportedSkippedEntry : Type 0 where
  pub dh_pub : Bytes
  pub n : ℕ
  pub key : Bytes

pub record ExportedSkippedOrderEntry : Type 0 where
  pub dh_pub : Bytes
  pub n : ℕ

pub record ExportedRatchetState : Type 0 where
  pub conversation_id : Bytes
  pub max_skip : ℕ
  pub root_key : Bytes
  pub dh_self_secret : Option Bytes
  pub dh_self_public : Option Bytes
  pub dh_remote : Option Bytes
  pub sending_chain_key : Option Bytes
  pub receiving_chain_key : Option Bytes
  pub send_n : ℕ
  pub recv_n : ℕ
  pub prev_chain_len : ℕ
  pub skipped : List ExportedSkippedEntry
  pub skipped_order : List ExportedSkippedOrderEntry
  pub content_delivered_contiguous : Option ℕ
  pub content_delivered_out_of_order : List ℕ

abbrev pub secret_part : Option (Bytes × Bytes) → Option Bytes
secret_part none = none
secret_part (some (s, p)) = some s

abbrev pub public_part : Option (Bytes × Bytes) → Option Bytes
public_part none = none
public_part (some (s, p)) = some p

unfoldable pub to_exported : RatchetState → ExportedRatchetState
to_exported r = record {
  conversation_id = r.conversation_id;
  max_skip = r.max_skip;
  root_key = r.root_key;
  dh_self_secret = secret_part r.dh_self;
  dh_self_public = public_part r.dh_self;
  dh_remote = r.dh_remote;
  sending_chain_key = r.sending_chain_key;
  receiving_chain_key = r.receiving_chain_key;
  send_n = r.send_n;
  recv_n = r.recv_n;
  prev_chain_len = r.prev_chain_len;
  skipped = map (λ entry. record { dh_pub = entry.0.0; n = entry.0.1; key = entry.1 }) r.skipped;
  skipped_order = map (λ id. record { dh_pub = id.0; n = id.1 }) r.skipped_order;
  content_delivered_contiguous = r.tracker.contiguous;
  content_delivered_out_of_order = r.tracker.out_of_order;
}

unfoldable pub import_dh_self : Option Bytes → Option Bytes → CoreResult (Option (Bytes × Bytes))
import_dh_self (some s) (some p) = do
  secret ← to_array32 s "dh_self_secret"
  key ← to_array32 p "dh_self_public"
  ok (some (secret, key))
import_dh_self none none = ok none
import_dh_self (some s) none =
    err (malformed_exported_state "dh_self must be fully present or fully absent")
import_dh_self none (some p) =
    err (malformed_exported_state "dh_self must be fully present or fully absent")

-- The collection into a `HashMap`, which the entries enter in their order
unfoldable pub import_skipped :
    List ExportedSkippedEntry → Map SkippedId Bytes → CoreResult (Map SkippedId Bytes)
import_skipped [] skipped = ok skipped
import_skipped (entry ∷ entries) skipped = do
  dh_pub ← to_array32 entry.dh_pub "skipped[].dh_pub"
  key ← to_array32 entry.key "skipped[].key"
  import_skipped entries (insert (dh_pub, entry.n) key skipped)

unfoldable pub import_skipped_order : List ExportedSkippedOrderEntry → CoreResult (List SkippedId)
import_skipped_order [] = ok []
import_skipped_order (entry ∷ entries) = do
  dh_pub ← to_array32 entry.dh_pub "skipped_order[].dh_pub"
  rest ← import_skipped_order entries
  ok ((dh_pub, entry.n) ∷ rest)

-- The collection into a `BTreeSet`
unfoldable pub import_out_of_order : List ℕ → List ℕ → List ℕ
import_out_of_order [] set = set
import_out_of_order (n ∷ ns) set = import_out_of_order ns (set_insert n set)

unfoldable pub from_exported : ExportedRatchetState → CoreResult RatchetState
from_exported e = do
  conversation_id ←
      (if eqb (length e.conversation_id) 16
        then ok e.conversation_id
        else err (malformed_exported_state "conversation_id"))
  dh_self ← import_dh_self e.dh_self_secret e.dh_self_public
  skipped ← import_skipped e.skipped []
  skipped_order ← import_skipped_order e.skipped_order
  root_key ← to_array32 e.root_key "root_key"
  dh_remote ← to_array32_transpose e.dh_remote "dh_remote"
  sending_chain_key ← to_array32_transpose e.sending_chain_key "sending_chain_key"
  receiving_chain_key ← to_array32_transpose e.receiving_chain_key "receiving_chain_key"
  ok (record {
    conversation_id = conversation_id;
    max_skip = e.max_skip;
    root_key = root_key;
    dh_self = dh_self;
    dh_remote = dh_remote;
    sending_chain_key = sending_chain_key;
    receiving_chain_key = receiving_chain_key;
    send_n = e.send_n;
    recv_n = e.recv_n;
    prev_chain_len = e.prev_chain_len;
    skipped = skipped;
    skipped_order = skipped_order;
    tracker = record {
      contiguous = e.content_delivered_contiguous;
      out_of_order = import_out_of_order e.content_delivered_out_of_order [];
    };
  })

module _ (codec : Codec ExportedRatchetState) where
  unfoldable pub export : RatchetState → Bytes
  export r = codec.to_cbor (to_exported r)

  unfoldable pub import : Bytes → CoreResult RatchetState
  import bytes = do
    exported ←
        ok_or (codec.from_cbor bytes) (malformed_exported_state "not valid CBOR for this shape")
    from_exported exported
