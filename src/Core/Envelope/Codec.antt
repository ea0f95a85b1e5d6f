-- ===== src/Core/Envelope/Codec.antt =====
-- The wire layout read back: decoding after encoding, and encoding after decoding.
use dratchet.Base.{
  ℕ, ◌+◌, ◌%◌, ◌≤◌, ◌<◌, ◌≡◌, refl, true, true, false, not, some, eqb_iff, reject_if, ok_or, ◌>>=◌,
  ◌>>◌, all, take-append-drop, length-take_le, all-take, all-drop, drop-drop, length-drop, ltb, eqb,
  [], sym, ◌∷◌, ◌++◌, Bytes, arith, length, slice, drop, ok, drop_past, take_exact, take,
  length-append, ap, ◌∙◌,
}
use mathlib.Core.List.{append_assoc}
use dratchet.Core.Errors.{CoreResult, malformed_envelope}
use dratchet.Core.Words.{
  is_byte, to_be_bytes-from_be_bytes, u32_mod, checked_add, to_be_bytes, from_be_bytes,
  from_be_bytes-to_be_bytes, length-to_be_bytes,
}
use dratchet.Core.Envelope.{Envelope, current_version, header_len, byte_at, encode, decode}

-- The values that the source's types allow, and the one version that is spoken.
pub record IsWire (e : Envelope) : Type 0 where
  pub version_current : e.version ≡ current_version
  pub conversation_width : length e.conversation_id ≡ 16
  pub key_width : length e.dh_pub ≡ 32
  pub pn_u32 : e.pn < u32_mod
  pub n_u32 : e.n < u32_mod
  pub ciphertext_u32 : length e.ciphertext < u32_mod

not_short : (t m l : ℕ) → t ≡ m + l → ltb t m ≡ false
not_short t m l h = ground arith

checked_add_small :
    (m k : ℕ) {l t : ℕ} → k ≡ l → t ≡ m + l → m ≤ 61 → l < u32_mod → checked_add m k ≡ some t
checked_add_small m k h e b small = ground arith

-- The value of `decode` from what its reads give.
decode_reads :
    (bs : Bytes) (e : Envelope)
    → length bs ≡ 61 + length e.ciphertext
    → length e.ciphertext < u32_mod
    → byte_at 0 bs ≡ current_version
    → e.version ≡ current_version
    → slice 1 17 bs ≡ e.conversation_id
    → slice 17 49 bs ≡ e.dh_pub
    → from_be_bytes (slice 49 53 bs) ≡ e.pn
    → from_be_bytes (slice 53 57 bs) ≡ e.n
    → from_be_bytes (slice 57 61 bs) ≡ length e.ciphertext
    → drop 61 bs ≡ e.ciphertext
    → decode bs ≡ ok e
unfolding decode
decode_reads bs e len small v v' c d p n l rest =
    let long : ltb (length bs) header_len ≡ false = not_short _ _ _ len in
    let known : eqb (byte_at 0 bs) current_version ≡ true = rw v in
    let end : checked_add header_len (from_be_bytes (slice 57 61 bs)) ≡ some (length bs) =
      checked_add_small 61 _ l len (omega arith) small in
    let fits : eqb (length bs) (length bs) ≡ true = (eqb_iff _ _).1 refl in
    rw (long, known, end, fits, c, d, p, n, rest, v, ← v')

module _ (conv dh p q l ct : Bytes) where
  abbrev layout : ℕ → Bytes
  layout v = v ∷ (conv ++ (dh ++ (p ++ (q ++ (l ++ ct)))))

  module _ (hc : length conv ≡ 16) (hd : length dh ≡ 32) (hp : length p ≡ 4) (hq : length q ≡ 4)
      (hl : length l ≡ 4) where
    layout_reads :
        (v : ℕ)
        → (length (layout v) ≡ 61 + length ct)
          × (slice 1 17 (layout v) ≡ conv)
          × (slice 17 49 (layout v) ≡ dh)
          × (slice 49 53 (layout v) ≡ p)
          × (slice 53 57 (layout v) ≡ q)
          × (slice 57 61 (layout v) ≡ l)
          × (drop 61 (layout v) ≡ ct)
    layout_reads v =
        let d16 : (m : ℕ)
            → drop (16 + m) (conv ++ (dh ++ (p ++ (q ++ (l ++ ct)))))
              ≡ drop m (dh ++ (p ++ (q ++ (l ++ ct)))) =
          λ m. drop_past 16 m conv _ hc in
        let d48 : (m : ℕ)
            → drop (32 + m) (dh ++ (p ++ (q ++ (l ++ ct)))) ≡ drop m (p ++ (q ++ (l ++ ct))) =
          λ m. drop_past 32 m dh _ hd in
        let d52 : (m : ℕ) → drop (4 + m) (p ++ (q ++ (l ++ ct))) ≡ drop m (q ++ (l ++ ct)) =
          λ m. drop_past 4 m p _ hp in
        let d56 : (m : ℕ) → drop (4 + m) (q ++ (l ++ ct)) ≡ drop m (l ++ ct) =
          λ m. drop_past 4 m q _ hq in
        let d60 : (m : ℕ) → drop (4 + m) (l ++ ct) ≡ drop m ct = λ m. drop_past 4 m l _ hl in
        (
          omega (
            arith,
            length-append conv (dh ++ (p ++ (q ++ (l ++ ct)))),
            length-append dh (p ++ (q ++ (l ++ ct))),
            length-append p (q ++ (l ++ ct)),
            length-append q (l ++ ct),
            length-append l ct,
          ),
          take_exact 16 conv _ hc,
          ap (take 32) (d16 0) ∙ take_exact 32 dh _ hd,
          ap (take 4) (d16 32 ∙ d48 0) ∙ take_exact 4 p _ hp,
          ap (take 4) (d16 36 ∙ d48 4 ∙ d52 0) ∙ take_exact 4 q _ hq,
          ap (take 4) (d16 40 ∙ d48 8 ∙ d52 4 ∙ d56 0) ∙ take_exact 4 l _ hl,
          d16 44 ∙ d48 12 ∙ d52 8 ∙ d56 4 ∙ d60 0,
        )

encode-layout :
    (e : Envelope)
    → encode e
      ≡ layout e.conversation_id e.dh_pub
          (to_be_bytes e.pn)
          (to_be_bytes e.n)
          (to_be_bytes (length e.ciphertext % u32_mod))
          e.ciphertext
          e.version
unfolding encode
encode-layout e = simp append_assoc

-- Decoding what was encoded gives the envelope back, for an envelope of the current version whose
-- fields fit the types of the source.
pub decode-encode : (e : Envelope) → IsWire e → decode (encode e) ≡ ok e
decode-encode e w =
    let r =
      layout_reads e.conversation_id e.dh_pub (to_be_bytes e.pn) (to_be_bytes e.n)
        (to_be_bytes (length e.ciphertext % u32_mod)) e.ciphertext w.conversation_width w.key_width
        (length-to_be_bytes _) (length-to_be_bytes _) (length-to_be_bytes _) e.version in
    rw (encode-layout e) (
      decode_reads _ e r.0 w.ciphertext_u32 w.version_current w.version_current r.1 r.2
        (ap from_be_bytes r.3 ∙ from_be_bytes-to_be_bytes e.pn w.pn_u32)
        (ap from_be_bytes r.4 ∙ from_be_bytes-to_be_bytes e.n w.n_u32)
        (ap from_be_bytes r.5 ∙ from_be_bytes-to_be_bytes _ (omega arith) ∙ omega arith) r.6)

-- The tests of `decode`, on what its reads give.
decode_fields : ℕ → ℕ → Bytes → Bytes → ℕ → ℕ → ℕ → Bytes → CoreResult Envelope
decode_fields len version conv dh pn n clen rest = do
  reject_if (ltb len header_len) (malformed_envelope "shorter than the fixed header")
  reject_if (not (eqb version current_version)) (malformed_envelope "unsupported version")
  end ← ok_or (checked_add header_len clen) (malformed_envelope "ciphertext_len overflows")
  reject_if (not (eqb end len))
      (malformed_envelope "ciphertext_len doesn't match the remaining bytes")
  ok (record {
    version = version;
    conversation_id = conv;
    dh_pub = dh;
    pn = pn;
    n = n;
    ciphertext = rest;
  })

decode-fields :
    (bs : Bytes)
    → decode bs
      ≡ decode_fields
          (length bs)
          (byte_at 0 bs)
          (slice 1 17 bs)
          (slice 17 49 bs)
          (from_be_bytes (slice 49 53 bs))
          (from_be_bytes (slice 53 57 bs))
          (from_be_bytes (slice 57 61 bs))
          (drop 61 bs)
unfolding decode decode_fields
decode-fields bs = refl

decode_fields_ok :
    (len version : ℕ) (conv dh : Bytes) (pn n clen : ℕ) (rest : Bytes) (e : Envelope)
    → decode_fields len version conv dh pn n clen rest ≡ ok e
    → (version ≡ current_version)
      × (61 + clen ≡ len)
      × (e ≡ record {
        version = version;
        conversation_id = conv;
        dh_pub = dh;
        pn = pn;
        n = n;
        ciphertext = rest;
      })
unfolding decode_fields
decode_fields_ok len version conv dh pn n clen rest e h = ground arith

cut : (n k : ℕ) (bs : Bytes) → drop n bs ≡ take k (drop n bs) ++ drop (n + k) bs
cut n k bs = rw (← drop-drop n k bs) (sym (take-append-drop k (drop n bs)))

split_layout :
    (bs : Bytes)
    → 61 ≤ length bs
    → bs
      ≡ layout
          (slice 1 17 bs)
          (slice 17 49 bs)
          (slice 49 53 bs)
          (slice 53 57 bs)
          (slice 57 61 bs)
          (drop 61 bs)
          (byte_at 0 bs)
split_layout [] h = absurd (omega arith)
split_layout (v ∷ bs) h = ap (◌∷◌ v) (
    cut 0 16 bs
    ∙ ap (◌++◌ (take 16 bs)) (
        cut 16 32 bs
        ∙ ap (◌++◌ (take 32 (drop 16 bs))) (
            cut 48 4 bs
            ∙ ap (◌++◌ (take 4 (drop 48 bs)))
                (cut 52 4 bs ∙ ap (◌++◌ (take 4 (drop 52 bs))) (cut 56 4 bs)))))

-- A four-byte field in range, read and written again.
word_slice :
    (from : ℕ) (bs : Bytes)
    → from + 4 ≤ length bs
    → all is_byte bs ≡ true
    → let w = take 4 (drop from bs) in
      (to_be_bytes (from_be_bytes w) ≡ w) × (from_be_bytes w < u32_mod)
word_slice from bs h b =
    to_be_bytes-from_be_bytes (take 4 (drop from bs))
      (length-take_le 4 (drop from bs) (omega (arith, length-drop from bs)))
      (all-take is_byte 4 _ (all-drop is_byte from bs b))

-- What decodes is exactly what encoding the result gives: no two byte strings stand for one
-- envelope. The hypothesis says that the input is made of bytes.
pub encode-decode :
    (bs : Bytes) (e : Envelope) → all is_byte bs ≡ true → decode bs ≡ ok e → encode e ≡ bs
encode-decode bs e b h =
    let r = decode_fields_ok _ _ _ _ _ _ _ _ e (sym (decode-fields bs) ∙ h) in
    let p = word_slice 49 bs (omega arith) b in
    let q = word_slice 53 bs (omega arith) b in
    let l = word_slice 57 bs (omega arith) b in
    let c : length (drop 61 bs) % u32_mod ≡ from_be_bytes (slice 57 61 bs) =
      omega (arith, length-drop 61 bs) in
    encode-layout e ∙ rw r.2 (rw (c, p.0, q.0, l.0) (sym (split_layout bs (omega arith))))
