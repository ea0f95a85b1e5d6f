-- ===== src/Core/Payload/Padding.antt =====
-- Padding: the size buckets, and the content read back from the padded plaintext.
use dratchet.Base.{
  ℕ, suc, ◌+◌, ◌-◌, ◌%◌, ◌≤◌, ◌<◌, ◌≡◌, ◌⊎◌, inl, inr, refl, some, Bool-cases, ◌∷◌, ◌++◌, Bytes,
  arith, length, ok, length-append, length-replicate, take_exact, drop_past, ltb, replicate, take,
  drop, take_all, false, ap, ◌∙◌,
}
use mathlib.Core.List.{append_assoc}
use dratchet.Core.Words.{
  u32_mod, to_le_bytes, from_le_bytes-to_le_bytes, length-to_le_bytes, from_le_bytes, checked_add,
}
use dratchet.Core.Payload.{
  max_padded_len, pad_bucket, padded_len_of, resize, tag_and_pad, untag_and_unpad,
}

-- For a tagged length within the maximum, the padded length holds it, is at most the maximum and
-- at most one bucket longer, and is a whole number of buckets or the maximum itself.
pub padded_len_of_bounds :
    (t : ℕ)
    → t ≤ max_padded_len
    → (t ≤ padded_len_of t)
      × (padded_len_of t ≤ max_padded_len)
      × (padded_len_of t ≤ t + pad_bucket)
      × ((padded_len_of t % pad_bucket ≡ 0) ⊎ (padded_len_of t ≡ max_padded_len))
unfolding padded_len_of
padded_len_of_bounds t h = (ground arith, ground arith, ground arith, ground arith)

test_long : (t n r : ℕ) → t ≡ 4 + n + r → ltb (suc t) 5 ≡ false
test_long t n r h = ground arith

test_room : (t n r : ℕ) → t ≡ 4 + n + r → ltb (suc t) (5 + n) ≡ false
test_room t n r h = ground arith

test_add : (n : ℕ) → n < u32_mod → checked_add 5 n ≡ some (5 + n)
test_add n h = ground arith

resize_grow :
    (n : ℕ) (out : Bytes) → length out ≤ n → resize n out ≡ out ++ replicate (n - length out) 0
unfolding resize
resize_grow n out h = ap (λ (u : Bytes). u ++ replicate (n - length out) 0) (take_all n out h)

-- A payload that fits is laid out as tag, length, content and zeros.
tag_and_pad_layout :
    (ty : ℕ) (content : Bytes)
    → 5 + length content ≤ max_padded_len
    → tag_and_pad ty content
      ≡ ok (
          ty
          ∷ (to_le_bytes (length content)
              ++ (content
                  ++ replicate (padded_len_of (5 + length content) - (5 + length content)) 0)))
unfolding tag_and_pad
tag_and_pad_layout ty content h =
    let fits : ltb max_padded_len (5 + length content) ≡ false = ground arith in
    let small : length content % u32_mod ≡ length content = omega arith in
    let tagged = ty ∷ (to_le_bytes (length content) ++ content) in
    let size : length tagged ≡ 5 + length content = omega (
      arith,
      length-append (to_le_bytes (length content)) content,
      length-to_le_bytes (length content),
    ) in
    let room = padded_len_of_bounds (5 + length content) h in
    rw (fits, small, resize_grow (padded_len_of (5 + length content)) tagged (omega arith), size)
      (ap (λ (u : Bytes). ok (ty ∷ u)) (simp append_assoc))

fits_of_ok :
    (ty : ℕ) (content out : Bytes)
    → tag_and_pad ty content ≡ ok out
    → 5 + length content ≤ max_padded_len
unfolding tag_and_pad
fits_of_ok ty content out h = elim (Bool-cases (ltb max_padded_len (5 + length content))) [
  | inl e ↦ cc (rw e at h)
  | inr e ↦ ground (arith, e)
]

-- What `tag_and_pad` gives is the layout.
layout_of_ok :
    (ty : ℕ) (content out : Bytes)
    → tag_and_pad ty content ≡ ok out
    → out
      ≡ ty
        ∷ (to_le_bytes (length content)
            ++ (content ++ replicate (padded_len_of (5 + length content) - (5 + length content)) 0))
layout_of_ok ty content out h = cc (tag_and_pad_layout ty content (fits_of_ok ty content out h))

-- Where content is padded, the length of the result depends on the length of the content alone,
-- and the tagged content fits the maximum.
pub length-tag_and_pad :
    (ty : ℕ) (content out : Bytes)
    → tag_and_pad ty content ≡ ok out
    → (length out ≡ padded_len_of (5 + length content)) × (5 + length content ≤ max_padded_len)
length-tag_and_pad ty content out h =
    let fits = fits_of_ok ty content out h in
    let zeros = padded_len_of (5 + length content) - (5 + length content) in
    let room = padded_len_of_bounds (5 + length content) fits in
    (
      rw (layout_of_ok ty content out h) (
          omega (
            arith,
            length-append (to_le_bytes (length content)) (content ++ replicate zeros 0),
            length-append content (replicate zeros 0),
            length-to_le_bytes (length content),
            length-replicate {A = ℕ} zeros 0,
          )),
      fits,
    )

-- Reading any layout of this shape, whatever stands behind the content.
untag_layout :
    (ty : ℕ) (content rest : Bytes)
    → length content < u32_mod
    → untag_and_unpad (ty ∷ (to_le_bytes (length content) ++ (content ++ rest))) ≡ ok (ty, content)
unfolding untag_and_unpad
untag_layout ty content rest small =
    let prefix = to_le_bytes (length content) in
    let len : from_le_bytes (take 4 (prefix ++ (content ++ rest))) ≡ length content =
      ap from_le_bytes (take_exact 4 prefix _ (length-to_le_bytes _))
      ∙ from_le_bytes-to_le_bytes _ small in
    let skip : drop 4 (prefix ++ (content ++ rest)) ≡ content ++ rest =
      drop_past 4 0 prefix _ (length-to_le_bytes _) in
    let total : length (prefix ++ (content ++ rest)) ≡ 4 + length content + length rest = omega (
      arith,
      length-append prefix (content ++ rest),
      length-append content rest,
      length-to_le_bytes (length content),
    ) in
    let long : ltb (suc (length (prefix ++ (content ++ rest)))) 5 ≡ false = test_long _ _ _ total in
    let fits : checked_add 5 (length content) ≡ some (5 + length content) = test_add _ small in
    let room : ltb (suc (length (prefix ++ (content ++ rest)))) (5 + length content) ≡ false =
      test_room _ _ _ total in
    let same : 5 + length content - 5 ≡ length content = omega arith in
    rw (len, long, fits, room, skip, same)
      (ap (λ (u : Bytes). ok (ty, u)) (take_exact _ content rest refl))

-- The type and the content come back from the padded plaintext, where the content could be padded.
pub untag-tag_and_pad :
    (ty : ℕ) (content out : Bytes)
    → tag_and_pad ty content ≡ ok out
    → untag_and_unpad out ≡ ok (ty, content)
untag-tag_and_pad ty content out h =
    let fits = fits_of_ok ty content out h in
    let zeros : Bytes = replicate (padded_len_of (5 + length content) - (5 + length content)) 0 in
    let small : length content < u32_mod = omega (arith, fits) in
    rw (layout_of_ok ty content out h) (untag_layout ty content zeros small)
