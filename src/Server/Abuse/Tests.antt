-- ===== src/Server/Abuse/Tests.antt =====
-- A run of the search for a proof of work, with a hash that the solution decides.
use dratchet.Base.{ℕ, ◌≡◌, ◌≤◌, refl, true, some, [], ◌∷◌, Bytes, replicate, eqb, if◌then◌else◌}
use dratchet.Core.Identity.{Signatures}
use dratchet.Server.Abuse.{verify_registration_pow, solve_registration_pow}
use dratchet.Server.Abuse.Work.{FailsBelow, solve_registration_pow_ends}

abbrev last : Bytes → ℕ
last [] = 0
last (b ∷ []) = b
last (b ∷ c ∷ rest) = last (c ∷ rest)

-- Two zero bytes come first where the last byte of the message is 3.
abbrev hashes : Signatures
hashes = record {
  sha256 = λ m. if eqb (last m) 3 then replicate 32 0 else replicate 32 1;
  verify = λ key m signature. true;
  sign = λ secret m. m;
  verifying_key = λ secret. secret;
}

solve_registration_pow_ends_example :
    (k : ℕ) × (solve_registration_pow hashes [] 1 [] 4 ≡ some k)
    × (verify_registration_pow hashes [] 1 [] k ≡ true)
    × FailsBelow hashes [] 1 [] k
    × (k ≤ 3)
unfolding verify_registration_pow dratchet.Server.Abuse.leading_zero_bits
    dratchet.Server.Abuse.pow_hash dratchet.Core.Words.to_be_bytes
solve_registration_pow_ends_example = solve_registration_pow_ends hashes [] 1 [] 3 refl
