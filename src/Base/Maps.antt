-- ===== src/Base/Maps.antt =====
-- Finite maps, for the program's hash maps: association lists with one entry for a key that was
-- inserted. The order of the list stands for the order in which the map would be walked.
use Prim.Native.Nat.{◌+◌, ◌≤◌}
use mathlib.Core.Path.{◌≡◌, refl}
use mathlib.Core.Bool.{Bool}
use mathlib.Core.Option.{Option, none, some}
use mathlib.Core.List.{List, [], ◌∷◌, ◌++◌}
use native.Mathlib.Omega.{arith}
use mathlib.Core.Logic.{inl, inr}
use dratchet.Base.Tests.{if◌then◌else◌, Eq, is_some, Bool-cases}
use dratchet.Base.Lists.{length, filter}

abbrev pub Map {ℓ κ} : Type ℓ → Type κ → Type (ℓ ⊔ κ)
Map K V = List (K × V)

module _ {ℓ κ} {K : Type ℓ} {V : Type κ} ⦃e : Eq K⦄ where
  unfoldable pub lookup : K → Map K V → Option V
  lookup k [] = none
  lookup k ((j, v) ∷ m) = if e.beq j k then some v else lookup k m

  abbrev pub contains_key : K → Map K V → Bool
  contains_key k m = is_some (lookup k m)

  unfoldable pub insert : K → V → Map K V → Map K V
  insert k v [] = (k, v) ∷ []
  insert k v ((j, w) ∷ m) = if e.beq j k then (k, v) ∷ m else (j, w) ∷ insert k v m

  unfoldable pub remove : K → Map K V → Map K V
  remove k [] = []
  remove k ((j, w) ∷ m) = if e.beq j k then remove k m else (j, w) ∷ remove k m

  pub lookup-insert :
      (j k : K) (v : V) (m : Map K V)
      → lookup j (insert k v m) ≡ (if e.beq k j then some v else lookup j m)
  unfolding lookup insert
  lookup-insert j k v [] = refl
  lookup-insert j k v ((i, w) ∷ m) =
      ground (arith, e.decides k j, e.decides i k, e.decides i j, lookup-insert j k v m)

  pub lookup-remove :
      (j k : K) (m : Map K V) → lookup j (remove k m) ≡ (if e.beq k j then none else lookup j m)
  unfolding lookup remove
  lookup-remove j k [] = ground arith
  lookup-remove j k ((i, w) ∷ m) =
      ground (arith, e.decides k j, e.decides i k, e.decides i j, lookup-remove j k m)

  pub lookup-insert_self : (k : K) (v : V) (m : Map K V) → lookup k (insert k v m) ≡ some v
  lookup-insert_self k v m = ground (arith, lookup-insert k k v m, e.decides k k)

  pub lookup-remove_self : (k : K) (m : Map K V) → lookup k (remove k m) ≡ none
  lookup-remove_self k m = ground (arith, lookup-remove k k m, e.decides k k)

  pub length-insert : (k : K) (v : V) (m : Map K V) → length (insert k v m) ≤ length m + 1
  unfolding insert
  length-insert k v [] = omega arith
  length-insert k v ((j, w) ∷ m) = ground (arith, length-insert k v m)

  pub insert_fresh :
      (k : K) (v : V) (m : Map K V) → lookup k m ≡ none → insert k v m ≡ m ++ (k, v) ∷ []
  unfolding lookup insert
  insert_fresh k v [] h = refl
  insert_fresh k v ((j, w) ∷ m) h = ground (arith, insert_fresh k v m)

  -- No key stands twice.
  abbrev pub IsMap : Map K V → Type κ
  IsMap [] = Unit
  IsMap ((k, v) ∷ m) = (lookup k m ≡ none) × IsMap m

  pub insert-IsMap : (k : K) (v : V) (m : Map K V) → IsMap m → IsMap (insert k v m)
  unfolding lookup insert
  insert-IsMap k v [] u = (refl, tt)
  insert-IsMap k v ((j, w) ∷ m) u = elim (Bool-cases (e.beq j k)) [
    | inl same ↦ rw (same, insert) (ground (arith, u.0, e.decides j k), u.1)
    | inr other ↦
        rw (other, insert)
          (
            ground (arith, lookup-insert j k v m, u.0, e.decides j k, e.decides k j),
            insert-IsMap k v m u.1,
          )
  ]

  pub lookup-filter-none :
      (k : K) (p : K × V → Bool) (m : Map K V) → lookup k m ≡ none → lookup k (filter p m) ≡ none
  unfolding lookup filter
  lookup-filter-none k p [] h = refl
  lookup-filter-none k p ((j, w) ∷ m) h = ground (arith, lookup-filter-none k p m)

  pub filter-IsMap : (p : K × V → Bool) (m : Map K V) → IsMap m → IsMap (filter p m)
  unfolding filter
  filter-IsMap p [] u = tt
  filter-IsMap p ((j, w) ∷ m) u = elim (Bool-cases (p (j, w))) [
    | inl kept ↦ rw (kept, filter) (lookup-filter-none j p m u.0, filter-IsMap p m u.1)
    | inr left ↦ rw (left, filter) (filter-IsMap p m u.1)
  ]
