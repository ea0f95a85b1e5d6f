-- ===== src/Base/Names.antt =====
-- Byte strings as names: their order, and hexadecimal.
use Prim.Native.Nat.{ℕ, ◌+◌, ◌-◌, ◌/◌, ◌%◌}
use mathlib.Core.Bool.{Bool, true, false, ◌&&◌, ◌||◌}
use mathlib.Core.List.{List, [], ◌∷◌}
use dratchet.Base.Tests.{ltb, eqb, if◌then◌else◌}
use dratchet.Base.ByteStrings.{Bytes}

-- `<=` of byte slices
unfoldable pub bytes_le : Bytes → Bytes → Bool
bytes_le [] bs = true
bytes_le (a ∷ rest) [] = false
bytes_le (a ∷ rest) (b ∷ bs) = ltb a b || (eqb a b && bytes_le rest bs)

unfoldable pub insert_key : Bytes → List Bytes → List Bytes
insert_key key [] = key ∷ []
insert_key key (first ∷ others) =
    if bytes_le key first then key ∷ first ∷ others else first ∷ insert_key key others

unfoldable pub sort_keys : List Bytes → List Bytes
sort_keys [] = []
sort_keys (key ∷ others) = insert_key key (sort_keys others)

abbrev pub hex_digit : ℕ → ℕ
hex_digit n = if ltb n 10 then b'0' + n else b'a' + n - 10

unfoldable pub hex : Bytes → Bytes
hex [] = []
hex (b ∷ bytes) = hex_digit (b / 16) ∷ hex_digit (b % 16) ∷ hex bytes
