-- ===== src/Core/Exports.antt =====
-- Fields of fixed width in what core/src/ratchet.rs and core/src/account.rs export.
use Prim.Native.String.{String}
use dratchet.Base.{
  ◌≡◌, refl, Option, none, some, Bytes, length, eqb, ok, err, if◌then◌else◌, result_map,
}
use dratchet.Core.Errors.{CoreResult, malformed_exported_state}

unfoldable pub to_array32 : Bytes → String → CoreResult Bytes
to_array32 v what = if eqb (length v) 32 then ok v else err (malformed_exported_state what)

-- `.map(|p| to_array32(p, what)).transpose()`
unfoldable pub to_array32_transpose : Option Bytes → String → CoreResult (Option Bytes)
to_array32_transpose none what = ok none
to_array32_transpose (some v) what = result_map some (to_array32 v what)

abbrev pub IsArray32 : Bytes → Type 0
IsArray32 v = length v ≡ 32

abbrev pub IsArray32Option : Option Bytes → Type 0
IsArray32Option none = Unit {0}
IsArray32Option (some v) = IsArray32 v

pub to_array32_lem : (v : Bytes) (what : String) → IsArray32 v → to_array32 v what ≡ ok v
unfolding to_array32
to_array32_lem v what h = rw h refl

pub to_array32_transpose_lem :
    (v : Option Bytes) (what : String) → IsArray32Option v → to_array32_transpose v what ≡ ok v
unfolding to_array32_transpose
to_array32_transpose_lem none what h = refl
to_array32_transpose_lem (some v) what h = rw (to_array32_lem v what h) refl
