-- ===== src/Server/MailStore/Names.antt =====
-- server/src/mailstore.rs: names of fragments that are free or taken in the directories.
use dratchet.Base.{
  ℕ, ◌≡◌, refl, ap, Bool, true, false, List, [], ◌∷◌, Bytes, bytes_eq, nat_eq, pair_eq, arith, elem,
  is_some, Option-cases, inl, inr, Eq, Each,
}
use dratchet.Server.Storage.{Directory, read_file}
use dratchet.Server.MailStore.Fragments.{Keeps}

instance abbrev pub fragment_eq : Eq (ℕ × Bytes)
fragment_eq = pair_eq

abbrev pub is_taken : List Directory → ℕ × Bytes → Bool
is_taken dirs f = is_some (read_file f.0 f.1 dirs)

abbrev pub AllTaken : List (ℕ × Bytes) → List Directory → Type 0
AllTaken fragments dirs = Each (λ f. is_taken dirs f ≡ true) fragments

abbrev pub AllFree : List (ℕ × Bytes) → List Directory → Type 0
AllFree fragments dirs = Each (λ f. is_taken dirs f ≡ false) fragments

-- No fragment is in both lists.
abbrev pub Apart : List (ℕ × Bytes) → List (ℕ × Bytes) → Type 0
Apart xs ys = Each (λ f. elem f ys ≡ false) xs

is_taken-Keeps :
    (before after : List Directory) (f : ℕ × Bytes)
    → Keeps before after
    → is_taken before f ≡ true
    → is_taken after f ≡ true
is_taken-Keeps before after f kept h = elim (Option-cases (read_file f.0 f.1 before)) [
  | inl absent ↦ absurd (ground (arith, absent))
  | inr (found, e) ↦ ground (arith, kept.files f.0 f.1 found e)
]

pub AllTaken-Keeps :
    (before after : List Directory) (fragments : List (ℕ × Bytes))
    → Keeps before after
    → AllTaken fragments before
    → AllTaken fragments after
AllTaken-Keeps before after [] kept h = tt
AllTaken-Keeps before after (f ∷ fragments) kept h =
    (is_taken-Keeps before after f kept h.0, AllTaken-Keeps before after fragments kept h.1)

-- What was free before a step that keeps files and is free after it
pub AllFree-Keeps :
    (before after : List Directory) (fragments : List (ℕ × Bytes))
    → Keeps before after
    → AllFree fragments after
    → AllFree fragments before
AllFree-Keeps before after [] kept h = tt
AllFree-Keeps before after (f ∷ fragments) kept h = (
  ground (arith, is_taken-Keeps before after f kept, h.0),
  AllFree-Keeps before after fragments kept h.1,
)

elem_taken :
    (dirs : List Directory) (f : ℕ × Bytes) (fragments : List (ℕ × Bytes))
    → is_taken dirs f ≡ false
    → AllTaken fragments dirs
    → elem f fragments ≡ false
unfolding elem
elem_taken dirs f [] free h = refl
elem_taken dirs f (g ∷ fragments) free h =
    ground (
      arith,
      fragment_eq.decides g f,
      elem_taken dirs f fragments free h.1,
      h.0,
      ap (is_taken dirs),
    )

elem_free :
    (dirs : List Directory) (f : ℕ × Bytes) (fragments : List (ℕ × Bytes))
    → is_taken dirs f ≡ true
    → AllFree fragments dirs
    → elem f fragments ≡ false
unfolding elem
elem_free dirs f [] taken h = refl
elem_free dirs f (g ∷ fragments) taken h =
    ground (
      arith,
      fragment_eq.decides g f,
      elem_free dirs f fragments taken h.1,
      h.0,
      ap (is_taken dirs),
    )

pub free-Apart :
    (dirs : List Directory) (new old : List (ℕ × Bytes))
    → AllFree new dirs
    → AllTaken old dirs
    → Apart new old
free-Apart dirs [] old h k = tt
free-Apart dirs (f ∷ new) old h k = (elem_taken dirs f old h.0 k, free-Apart dirs new old h.1 k)

pub taken-Apart :
    (dirs : List Directory) (old new : List (ℕ × Bytes))
    → AllTaken old dirs
    → AllFree new dirs
    → Apart old new
taken-Apart dirs [] new h k = tt
taken-Apart dirs (f ∷ old) new h k = (elem_free dirs f new h.0 k, taken-Apart dirs old new h.1 k)
