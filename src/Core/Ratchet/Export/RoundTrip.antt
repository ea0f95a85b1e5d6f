-- ===== src/Core/Ratchet/Export/RoundTrip.antt =====
-- A session that was exported is imported as it was.
use dratchet.Base.{
  ℕ, ◌≡◌, refl, ap, sym, ◌∙◌, true, Option, none, some, List, [], ◌∷◌, ◌++◌, Bytes, bytes_eq,
  nat_eq, pair_eq, length, ltb, ok, Map, lookup, insert_fresh, map, all, arith,
}
use mathlib.Core.List.{append_assoc, append-nil}
use dratchet.Base.Codecs.{Codec, Decodes}
use dratchet.Core.Exports.{IsArray32, IsArray32Option, to_array32_lem, to_array32_transpose_lem}
use dratchet.Core.Ratchet.State.{RatchetState, SkippedId}
use dratchet.Core.Ratchet.Tracker.{set_insert}
use dratchet.Core.Ratchet.Export.{
  ExportedRatchetState, secret_part, public_part, to_exported, import_dh_self, import_skipped,
  import_skipped_order, import_out_of_order, from_exported, export, import,
}

-- Keys of 32 bytes, each filed once, behind the entries that come before.
abbrev pub IsCache : Map SkippedId Bytes → Map SkippedId Bytes → Type 0
IsCache before [] = Unit {0}
IsCache before (((dh_pub, n), key) ∷ rest) =
    IsArray32 dh_pub
    × IsArray32 key
    × (lookup (dh_pub, n) before ≡ none)
    × IsCache (before ++ ((dh_pub, n), key) ∷ []) rest

abbrev pub IsOrder : List SkippedId → Type 0
IsOrder [] = Unit {0}
IsOrder ((dh_pub, n) ∷ rest) = IsArray32 dh_pub × IsOrder rest

-- Numbers that ascend, above those before them.
abbrev pub IsAscending : List ℕ → List ℕ → Type 0
IsAscending before [] = Unit {0}
IsAscending before (n ∷ ns) = (all (λ m. ltb m n) before ≡ true) × IsAscending (before ++ n ∷ []) ns

abbrev pub IsPair : Option (Bytes × Bytes) → Type 0
IsPair none = Unit {0}
IsPair (some (s, p)) = IsArray32 s × IsArray32 p

-- What the Rust types say of a session: the widths of its keys, and that the cache is a map and the
-- numbers are a set.
pub record IsTyped (r : RatchetState) : Type 0 where
  pub conversation : length r.conversation_id ≡ 16
  pub root : IsArray32 r.root_key
  pub own : IsPair r.dh_self
  pub remote : IsArray32Option r.dh_remote
  pub sending : IsArray32Option r.sending_chain_key
  pub receiving : IsArray32Option r.receiving_chain_key
  pub cache : IsCache [] r.skipped
  pub order : IsOrder r.skipped_order
  pub numbers : IsAscending [] r.tracker.out_of_order

set_insert_last :
    (n : ℕ) (ns : List ℕ) → all (λ m. ltb m n) ns ≡ true → set_insert n ns ≡ ns ++ n ∷ []
unfolding set_insert all
set_insert_last n [] h = refl
set_insert_last n (m ∷ ns) h = ground (arith, set_insert_last n ns)

import_out_of_order_lem :
    (ns before : List ℕ) → IsAscending before ns → import_out_of_order ns before ≡ before ++ ns
unfolding import_out_of_order
import_out_of_order_lem [] before h = sym (append-nil before)
import_out_of_order_lem (n ∷ ns) before h =
    rw (set_insert_last n before h.0) (import_out_of_order_lem ns (before ++ n ∷ []) h.1)
    ∙ append_assoc before (n ∷ []) ns

import_skipped_lem :
    (m before : Map SkippedId Bytes)
    → IsCache before m
    → import_skipped
        (map (λ entry. record { dh_pub = entry.0.0; n = entry.0.1; key = entry.1 }) m)
        before
      ≡ ok (before ++ m)
unfolding import_skipped
import_skipped_lem [] before h = ap ok (sym (append-nil before))
import_skipped_lem (((dh_pub, n), key) ∷ rest) before (public_width, key_width, fresh, others) =
    rw
      (
        to_array32_lem dh_pub "skipped[].dh_pub" public_width,
        to_array32_lem key "skipped[].key" key_width,
        insert_fresh (dh_pub, n) key before fresh,
      )
      (import_skipped_lem rest (before ++ ((dh_pub, n), key) ∷ []) others)
    ∙ ap ok (append_assoc before (((dh_pub, n), key) ∷ []) rest)

import_skipped_order_lem :
    (ids : List SkippedId)
    → IsOrder ids
    → import_skipped_order (map (λ id. record { dh_pub = id.0; n = id.1 }) ids) ≡ ok ids
unfolding import_skipped_order
import_skipped_order_lem [] h = refl
import_skipped_order_lem ((dh_pub, n) ∷ rest) (width, others) =
    rw (to_array32_lem dh_pub "skipped_order[].dh_pub" width, import_skipped_order_lem rest others)
      refl

import_dh_self_lem :
    (own : Option (Bytes × Bytes))
    → IsPair own
    → import_dh_self (secret_part own) (public_part own) ≡ ok own
unfolding import_dh_self
import_dh_self_lem none h = refl
import_dh_self_lem (some (s, p)) (secret_width, public_width) =
    rw
      (
        to_array32_lem s "dh_self_secret" secret_width,
        to_array32_lem p "dh_self_public" public_width,
      )
      refl

from_exported-to_exported : (r : RatchetState) → IsTyped r → from_exported (to_exported r) ≡ ok r
unfolding from_exported to_exported
from_exported-to_exported r t = ground (
  arith,
  t.conversation,
  import_dh_self_lem r.dh_self t.own,
  import_skipped_lem r.skipped [] t.cache,
  import_skipped_order_lem r.skipped_order t.order,
  to_array32_lem r.root_key "root_key" t.root,
  to_array32_transpose_lem r.dh_remote "dh_remote" t.remote,
  to_array32_transpose_lem r.sending_chain_key "sending_chain_key" t.sending,
  to_array32_transpose_lem r.receiving_chain_key "receiving_chain_key" t.receiving,
  import_out_of_order_lem r.tracker.out_of_order [] t.numbers,
)

-- A session of the widths that the Rust types fix, whose cache is a map and whose numbers out of order
-- are a set, is imported as it was exported, down to its cache of skipped keys and what it has
-- recorded as delivered, where the codec reads back what it wrote.
pub import-export :
    (codec : Codec ExportedRatchetState) (r : RatchetState)
    → Decodes codec (to_exported r)
    → IsTyped r
    → import codec (export codec r) ≡ ok r
unfolding import export
import-export codec r decodes t = rw decodes (from_exported-to_exported r t)
