-- ===== src/Store/Db/Keys.antt =====
-- The names of the records: hexadecimal is one to one, so the records of two conversations never
-- share a name.
use dratchet.Base.{
  ℕ, ◌/◌, ◌%◌, ◌<◌, ◌≡◌, refl, sym, ◌∙◌, Bool, true, false, none, List, [], ◌∷◌, ◌++◌, Bytes,
  bytes_eq, arith, lookup, remove, lookup-remove, length, filter, all, if◌then◌else◌, Bool-cases,
  inl, inr, elem, map, eqb,
}
use dratchet.Base.Names.{hex, hex_digit, insert_key, sort_keys}
use dratchet.Core.Words.{is_byte}
use dratchet.Store.Db.{Table, keys, starts_with, remove_all}

hex_digit_inj : (a b : ℕ) → a < 16 → b < 16 → hex_digit a ≡ hex_digit b → a ≡ b
hex_digit_inj a b ha hb h = ground arith

-- Two names of byte strings of one length, with anything behind: they agree only if the strings do.
pub hex-prefix :
    (a b rest rest' : Bytes)
    → all is_byte a ≡ true
    → all is_byte b ≡ true
    → length a ≡ length b
    → hex a ++ rest ≡ hex b ++ rest'
    → a ≡ b
unfolding hex all
hex-prefix [] [] rest rest' ha hb l h = refl
hex-prefix [] (y ∷ b) rest rest' ha hb l h = absurd (omega arith)
hex-prefix (x ∷ a) [] rest rest' ha hb l h = absurd (omega arith)
hex-prefix (x ∷ a) (y ∷ b) rest rest' ha hb l h = ground (
  arith,
  h,
  hex_digit_inj (x / 16) (y / 16),
  hex_digit_inj (x % 16) (y % 16),
  hex-prefix a b rest rest',
)

pub starts_with-split :
    (prefix key : Bytes) → starts_with prefix key ≡ true → (rest : Bytes) × (key ≡ prefix ++ rest)
unfolding starts_with
starts_with-split [] key h = (key, refl)
starts_with-split (p ∷ prefix) [] h = absurd (ground arith)
starts_with-split (p ∷ prefix) (b ∷ key) h = elim (Bool-cases (eqb p b)) [
  | inl same ↦
      let (rest, e) = starts_with-split prefix key (rw same at h) in (rest, ground (arith, same, e))
  | inr other ↦ absurd (ground (arith, rw other at h))
]

pub starts_with-append : (prefix rest : Bytes) → starts_with prefix (prefix ++ rest) ≡ true
unfolding starts_with
starts_with-append [] rest = refl
starts_with-append (p ∷ prefix) rest = ground (arith, starts_with-append prefix rest)

pub lookup-remove_all :
    (j : Bytes) (removed : List Bytes) (table : Table)
    → lookup j (remove_all removed table) ≡ (if elem j removed then none else lookup j table)
unfolding remove_all elem
lookup-remove_all j [] table = refl
lookup-remove_all j (key ∷ others) table =
    ground (arith, lookup-remove_all j others (remove key table), lookup-remove j key table)

-- A walk in order meets what is there.
elem-insert_key :
    (j key : Bytes) (test : Bytes → Bool) (names : List Bytes)
    → elem j (filter test (insert_key key names)) ≡ elem j (filter test (key ∷ names))
unfolding insert_key filter elem
elem-insert_key j key test [] = refl
elem-insert_key j key test (name ∷ names) = ground (arith, elem-insert_key j key test names)

elem-sort_keys :
    (j : Bytes) (test : Bytes → Bool) (names : List Bytes)
    → elem j (filter test (sort_keys names)) ≡ elem j (filter test names)
unfolding sort_keys filter elem
elem-sort_keys j test [] = refl
elem-sort_keys j test (key ∷ names) =
    elem-insert_key j key test (sort_keys names) ∙ ground (arith, elem-sort_keys j test names)

abbrev pub names_of : Table → List Bytes
names_of = map (λ entry. entry.0)

-- A name that is listed nowhere has no record.
lookup-unnamed :
    (j : Bytes) (test : Bytes → Bool) (table : Table)
    → test j ≡ true
    → elem j (filter test (names_of table)) ≡ false
    → lookup j table ≡ none
unfolding lookup filter elem
lookup-unnamed j test [] t h = refl
lookup-unnamed j test ((key, value) ∷ table) t h = elim (Bool-cases (bytes_eq.beq key j)) [
  | inl same ↦
      let e : test key ≡ true = rw ((bytes_eq.decides key j).0 same) t in
      absurd (ground (arith, h, same, e))
  | inr other ↦ ground (arith, h, other, lookup-unnamed j test table)
]

pub lookup-unlisted :
    (j : Bytes) (test : Bytes → Bool) (table : Table)
    → test j ≡ true
    → elem j (filter test (keys table)) ≡ false
    → lookup j table ≡ none
lookup-unlisted j test table t h =
    lookup-unnamed j test table t (sym (elem-sort_keys j test (names_of table)) ∙ h)

pub elem-filter :
    (j : Bytes) (test : Bytes → Bool) (names : List Bytes)
    → test j ≡ false
    → elem j (filter test names) ≡ false
unfolding filter elem
elem-filter j test [] h = refl
elem-filter j test (key ∷ names) h = elim (Bool-cases (bytes_eq.beq key j)) [
  | inl same ↦
      let e : test key ≡ false = rw ((bytes_eq.decides key j).0 same) h in
      ground (arith, e, elem-filter j test names)
  | inr other ↦ ground (arith, other, elem-filter j test names)
]

-- Deleting what a listing gave deletes every name that it was asked for, and no other.
pub lookup-remove_listed :
    (j : Bytes) (test : Bytes → Bool) (table : Table)
    → lookup j (remove_all (filter test (keys table)) table)
      ≡ (if test j then none else lookup j table)
lookup-remove_listed j test table = elim (Bool-cases (test j)) [
  | inr other ↦
      rw
        (
          lookup-remove_all j (filter test (keys table)) table,
          elem-filter j test (keys table) other,
          other,
        )
        refl
  | inl asked ↦
      rw (lookup-remove_all j (filter test (keys table)) table, asked)
        (elim (Bool-cases (elem j (filter test (keys table)))) [
          | inl listed ↦ rw listed refl
          | inr missing ↦ rw missing (lookup-unlisted j test table asked missing)
        ])
]
