-- ===== src/Server/MailStore/Fragments.antt =====
-- server/src/mailstore.rs: the fragments that `save` cuts a sealed message into, and what later writes keep.
use dratchet.Base.{
  ℕ, zero, suc, ◌+◌, ◌-◌, ◌*◌, ◌%◌, ◌≤◌, ◌≡◌, refl, sym, ap, ◌∙◌, min, none, some, List, [], ◌∷◌,
  ◌++◌, Bytes, bytes_eq, arith, length, slice, drop, lookup-insert, ok, take-append-drop, drop-drop,
  Option-cases, Result-cases, inl, inr,
}
use dratchet.Base.Endings.{Ends, done, failed, Ends-next}
use dratchet.Server.Storage.{Directory, MailStore, Crates, read_file, put_file}
use dratchet.Server.MailStore.{read_fragments, uuid_v4, write_private, write_fragments}

read_file-put_file :
    (i j : ℕ) (name other bytes : Bytes) (dirs : List Directory)
    → read_file i name dirs ≡ none
    → (found : Bytes) → read_file j other dirs ≡ some found
    → read_file j other (put_file i name bytes dirs) ≡ some found
unfolding read_file put_file
read_file-put_file i j name other bytes [] free found h = h
read_file-put_file zero zero name other bytes (dir ∷ dirs) free found h =
    ground (arith, lookup-insert other name bytes dir, bytes_eq.decides name other)
read_file-put_file zero (suc j) name other bytes (dir ∷ dirs) free found h = h
read_file-put_file (suc i) zero name other bytes (dir ∷ dirs) free found h = h
read_file-put_file (suc i) (suc j) name other bytes (dir ∷ dirs) free found h =
    read_file-put_file i j name other bytes dirs free found h

read_file-put_file_self :
    (i : ℕ) (name bytes : Bytes) (dirs : List Directory)
    → suc i ≤ length dirs
    → read_file i name (put_file i name bytes dirs) ≡ some bytes
unfolding read_file put_file
read_file-put_file_self i name bytes [] h = absurd (omega arith)
read_file-put_file_self zero name bytes (dir ∷ dirs) h =
    ground (arith, lookup-insert name name bytes dir, bytes_eq.decides name name)
read_file-put_file_self (suc i) name bytes (dir ∷ dirs) h =
    read_file-put_file_self i name bytes dirs (omega arith)

length-put_file :
    (i : ℕ) (name bytes : Bytes) (dirs : List Directory)
    → length (put_file i name bytes dirs) ≡ length dirs
unfolding put_file
length-put_file i name bytes [] = refl
length-put_file zero name bytes (dir ∷ dirs) = refl
length-put_file (suc i) name bytes (dir ∷ dirs) = ap suc (length-put_file i name bytes dirs)

-- Every file that was there is there with the same content.
pub record Keeps (before after : List Directory) : Type 0 where
  pub same_length : length after ≡ length before
  pub files :
      (i : ℕ) (name found : Bytes)
      → read_file i name before ≡ some found
      → read_file i name after ≡ some found

pub Keeps-refl : (dirs : List Directory) → Keeps dirs dirs
Keeps-refl dirs = record { same_length = refl; files = λ i name found h. h }

pub Keeps-trans : (a b c : List Directory) → Keeps a b → Keeps b c → Keeps a c
Keeps-trans a b c p q = record {
  same_length = q.same_length ∙ p.same_length;
  files = λ i name found h. q.files i name found (p.files i name found h);
}

-- What a step of `save` leaves as it was, and the files that it keeps.
pub record Writes (before after : MailStore) : Type 0 where
  pub dirs : Keeps before.dirs after.dirs
  pub seal : after.seal ≡ before.seal
  pub records : after.records ≡ before.records
  pub epoch : after.epoch ≡ before.epoch

pub Writes-refl : (s : MailStore) → Writes s s
Writes-refl s = record { dirs = Keeps-refl s.dirs; seal = refl; records = refl; epoch = refl }

pub Writes-trans : (a b c : MailStore) → Writes a b → Writes b c → Writes a c
Writes-trans a b c p q = record {
  dirs = Keeps-trans a.dirs b.dirs c.dirs p.dirs q.dirs;
  seal = q.seal ∙ p.seal;
  records = q.records ∙ p.records;
  epoch = q.epoch ∙ p.epoch;
}

slice-append-drop :
    (a b : ℕ) (bytes : Bytes) → a ≤ b → slice a b bytes ++ drop b bytes ≡ drop a bytes
slice-append-drop a b bytes h =
    let whole : a + (b - a) ≡ b = omega arith in
    ap (λ rest. slice a b bytes ++ rest)
      (ap (λ n. drop n bytes) (sym whole) ∙ sym (drop-drop a (b - a) bytes))
    ∙ take-append-drop (b - a) (drop a bytes)

drop_whole : (bytes : Bytes) → drop (length bytes) bytes ≡ []
drop_whole [] = refl
drop_whole (b ∷ bytes) = drop_whole bytes

next_piece : (i chunk len : ℕ) → min (i * chunk) len ≤ min ((i + 1) * chunk) len
next_piece i chunk len = omega arith

module _ (c : Crates) where
  read_fragments-next :
      (i : ℕ) (uuid bytes more : Bytes) (rest : List (ℕ × Bytes)) (dirs : List Directory)
      → suc i ≤ length dirs
      → length dirs ≤ 256
      → read_file i uuid dirs ≡ some bytes
      → read_fragments c rest dirs ≡ ok more
      → read_fragments c ((i % 256, uuid) ∷ rest) dirs ≡ ok (bytes ++ more)
  unfolding read_fragments
  read_fragments-next i uuid bytes more rest dirs h few found reads =
      let small : i % 256 ≡ i = omega arith in rw small (ground (arith, found, reads))

  -- What is read from fragments stays readable.
  pub read_fragments-Keeps :
      (fragments : List (ℕ × Bytes)) (before after : List Directory) (bytes : Bytes)
      → Keeps before after
      → read_fragments c fragments before ≡ ok bytes
      → read_fragments c fragments after ≡ ok bytes
  unfolding read_fragments
  read_fragments-Keeps [] before after bytes kept h = h
  read_fragments-Keeps ((i, uuid) ∷ rest) before after bytes kept h =
      elim (Option-cases (read_file i uuid before)) [
        | inl absent ↦ absurd (ground (arith, absent))
        | inr (found, e) ↦ elim (Result-cases (read_fragments c rest before)) [
          | inl (more, m) ↦ ground (
            arith,
            e,
            m,
            kept.same_length,
            kept.files i uuid found e,
            read_fragments-Keeps rest before after more kept m,
          )
          | inr (e', m) ↦ absurd (ground (arith, e, m))
        ]
      ]

  pub write_private-Writes :
      (i : ℕ) (name bytes : Bytes) (s : MailStore)
      → suc i ≤ length s.dirs
      → Ends
          (λ u t. Writes s t × (read_file i name t.dirs ≡ some bytes))
          (write_private c i name bytes s)
  unfolding write_private
  write_private-Writes i name bytes s h = elim (Option-cases (read_file i name s.dirs)) [
    | inl free ↦
        rw (free, write_private)
          (done (
            record {
              dirs = record {
                same_length = length-put_file i name bytes s.dirs;
                files =
                    λ j other found e. read_file-put_file i j name other bytes s.dirs free found e;
              };
              seal = refl;
              records = refl;
              epoch = refl;
            },
            read_file-put_file_self i name bytes s.dirs h,
          ))
    | inr (found, e) ↦ rw (e, write_private) failed
  ]

  -- The rest of the sealed message is in the fragments that the rest of the loop writes.
  pub write_fragments-Writes :
      (left i chunk : ℕ) (sealed : Bytes) (s : MailStore)
      → i + left ≡ length s.dirs
      → length s.dirs ≤ 256
      → length sealed ≤ (i + left) * chunk
      → Ends
          (λ fragments t.
            Writes s t
            × (read_fragments c fragments t.dirs
                ≡ ok (drop (min (i * chunk) (length sealed)) sealed)))
          (write_fragments c left i chunk sealed s)
  unfolding write_fragments read_fragments uuid_v4
  write_fragments-Writes zero i chunk sealed s n few enough =
      let all_of_it : min (i * chunk) (length sealed) ≡ length sealed = omega arith in
      done (Writes-refl s, ap ok (sym (ap (λ n. drop n sealed) all_of_it ∙ drop_whole sealed)))
  write_fragments-Writes (suc left) i chunk sealed s n few enough =
      let len = length sealed in
      let uuid = (uuid_v4 c s).0 in
      let s1 = (uuid_v4 c s).1 in
      let drawn : Writes s s1 = record {
        dirs = Keeps-refl s.dirs;
        seal = refl;
        records = refl;
        epoch = refl;
      } in
      let from = min (i * chunk) len in
      let to = min ((i + 1) * chunk) len in
      Ends-next (write_private-Writes i uuid (slice from to sealed) s1 (omega arith))
        (λ u (w, placed).
          let s2 = (write_private c i uuid (slice from to sealed) s1).1 in
          Ends-next
            (write_fragments-Writes left (i + 1) chunk sealed s2 (omega (arith, w.dirs.same_length))
              (omega (arith, w.dirs.same_length)) (omega arith))
            (λ rest (w', reads).
              let t = (write_fragments c left (i + 1) chunk sealed s2).1 in
              done (
                Writes-trans s s1 t drawn (Writes-trans s1 s2 t w w'),
                read_fragments-next i uuid (slice from to sealed) (drop to sealed) rest t.dirs
                      (omega (arith, w.dirs.same_length, w'.dirs.same_length))
                      (omega (arith, w.dirs.same_length, w'.dirs.same_length))
                      (w'.dirs.files i uuid (slice from to sealed) placed) reads
                    ∙ ap ok (slice-append-drop from to sealed (next_piece i chunk len)),
              )))
