-- ===== src/Server/Abuse/Budget.antt =====
-- What a limiter lets through: a burst of the capacity, and then one request for each refill.
use dratchet.Base.{
  ℕ, suc, ◌+◌, ◌-◌, ◌*◌, ◌≤◌, ◌≡◌, refl, sym, ap, ◌∙◌, Bool, true, false, ◌&&◌, Option, none, some,
  List, [], ◌∷◌, Eq, if◌then◌else◌, Map, lookup, insert, arith, lookup-insert, lookup-insert_self,
  Bool-cases, inl, inr,
}
use dratchet.Server.Abuse.{RateBucket, Limit, full, bucket_at, take_token, allow}

-- One request: what is spent and kept is at most what was there and the time that went by.
take_token_pays :
    (l : Limit) (now : ℕ) (b : RateBucket)
    → b.last_refill ≤ now
    → let (granted, b') = take_token l now b in
      ((if granted then l.period else 0) + b'.tokens ≤ b.tokens + (now - b.last_refill))
      × (b'.last_refill ≡ now)
      × (b'.tokens ≤ full l)
unfolding take_token
take_token_pays l now b h = ground arith

-- What key `j` could have at time `now`, before its cap.
abbrev potential : Limit → ℕ → Option RateBucket → ℕ
potential l now none = full l
potential l now (some b) = b.tokens + (now - b.last_refill)

abbrev NotAhead : ℕ → Option RateBucket → Type 0
NotAhead now none = Unit {0}
NotAhead now (some b) = b.last_refill ≤ now

bucket_at_pays :
    (l : Limit) (from now : ℕ) (o : Option RateBucket)
    → NotAhead from o
    → from ≤ now
    → let (granted, b') = take_token l now (bucket_at l now o) in
      ((if granted then l.period else 0) + b'.tokens ≤ potential l from o + (now - from))
      × (b'.last_refill ≡ now)
unfolding bucket_at
bucket_at_pays l from now none n h =
    let r = take_token_pays l now (record { tokens = full l; last_refill = now }) (omega arith) in
    (omega (arith, r.0), r.1)
bucket_at_pays l from now (some b) n h =
    let r = take_token_pays l now b (omega arith) in (omega (arith, r.0), r.1)

spend :
    (granted : Bool) (rest period held before spent left total : ℕ)
    → (if granted then period else 0) + held ≤ before + spent
    → rest * period ≤ held + left
    → spent + left ≤ total
    → (if granted then suc rest else rest) * period ≤ before + total
spend true rest period held before spent left total a b c = omega arith
spend false rest period held before spent left total a b c = omega arith

later_potential :
    (l : Limit) (from now : ℕ) (o : Option RateBucket)
    → NotAhead from o
    → from ≤ now
    → NotAhead now o × (potential l now o ≤ potential l from o + (now - from))
later_potential l from now none n h = (tt, omega arith)
later_potential l from now (some b) n h = (omega arith, omega arith)

-- A request's time and key.
module _ {ℓ} {K : Type ℓ} ⦃e : Eq K⦄ where
  -- The requests of key `j` that are granted, among all requests to a limiter, in order.
  unfoldable pub granted_to : Limit → K → List (ℕ × K) → Map K RateBucket → ℕ
  granted_to l j [] m = 0
  granted_to l j ((now, k) ∷ requests) m =
      let (granted, m') = allow l now k m in
      let rest = granted_to l j requests m' in if e.beq k j && granted then suc rest else rest

  -- The times do not run backwards.
  abbrev pub Ascending : ℕ → List (ℕ × K) → Type 0
  Ascending from [] = Unit {0}
  Ascending from ((t, _) ∷ requests) = (from ≤ t) × Ascending t requests

  abbrev pub final_time : ℕ → List (ℕ × K) → ℕ
  final_time from [] = from
  final_time from ((t, _) ∷ requests) = final_time t requests

  final_time_le : (from : ℕ) (rs : List (ℕ × K)) → Ascending from rs → from ≤ final_time from rs
  final_time_le from [] h = omega arith
  final_time_le from ((t, k) ∷ rs) h = omega (arith, final_time_le t rs h.1)

  -- Whatever other keys ask for meanwhile: the requests of one key that are granted cost at most
  -- what its bucket held and the time that went by.
  granted_to_pays :
      (l : Limit) (j : K) (from : ℕ) (rs : List (ℕ × K)) (m : Map K RateBucket)
      → NotAhead from (lookup j m)
      → Ascending from rs
      → granted_to l j rs m * l.period ≤ potential l from (lookup j m) + (final_time from rs - from)
  unfolding granted_to allow
  granted_to_pays l j from [] m n h = omega arith
  granted_to_pays l j from ((now, k) ∷ rs) m n h = elim (Bool-cases (e.beq k j)) [
    | inl same ↦
        let kj : k ≡ j = (e.decides k j).0 same in
        let r = take_token l now (bucket_at l now (lookup k m)) in
        let at : lookup j (insert k r.1 m) ≡ some r.1 =
          ap (λ (i : K). lookup i (insert k r.1 m)) (sym kj) ∙ lookup-insert_self k r.1 m in
        let pays = bucket_at_pays l from now (lookup k m) (rw kj n) h.0 in
        let old : potential l from (lookup k m) ≡ potential l from (lookup j m) = rw kj refl in
        let ih = granted_to_pays l j now rs (insert k r.1 m) (rw at (omega (arith, pays.1))) h.1 in
        let held : potential l now (lookup j (insert k r.1 m))
            ≡ r.1.tokens + (now - r.1.last_refill) =
          rw at refl in
        rw same (
          spend r.0 _ l.period r.1.tokens (potential l from (lookup j m)) (now - from)
            (final_time now rs - now) (final_time now rs - from) (omega (arith, pays.0, old))
            (omega (arith, ih, held, pays.1)) (omega (arith, final_time_le now rs h.1, h.0)))
    | inr other ↦
        let r = take_token l now (bucket_at l now (lookup k m)) in
        let at : lookup j (insert k r.1 m) ≡ lookup j m = lookup-insert j k r.1 m ∙ rw other refl in
        let later = later_potential l from now (lookup j m) n h.0 in
        let ih = granted_to_pays l j now rs (insert k r.1 m) (rw at later.0) h.1 in
        let held : potential l now (lookup j (insert k r.1 m)) ≡ potential l now (lookup j m) =
          rw at refl in
        rw other (omega (arith, ih, held, later.1, final_time_le now rs h.1, h.0))
  ]

  -- A key that is new to a limiter is granted at most its capacity and one request for each refill
  -- period that goes by, whatever it and others send, while the clock does not run backwards.
  pub granted_to_bound :
      (l : Limit) (j : K) (from : ℕ) (rs : List (ℕ × K)) (m : Map K RateBucket)
      → lookup j m ≡ none
      → Ascending from rs
      → granted_to l j rs m * l.period ≤ full l + (final_time from rs - from)
  granted_to_bound l j from rs m fresh h =
      rw fresh at (granted_to_pays l j from rs m (rw fresh tt) h)
