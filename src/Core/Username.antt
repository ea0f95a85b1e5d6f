-- ===== src/Core/Username.antt =====
-- core/src/username.rs: the characters and the length of a username, as bytes.
use dratchet.Base.{ℕ, Bool, not, ◌&&◌, ◌||◌, true, false, [], ◌∷◌, Bytes, leb, eqb, length, all}

abbrev pub max_len : ℕ
max_len = 64

unfoldable pub is_ascii_alphanumeric : ℕ → Bool
is_ascii_alphanumeric b =
    (leb b'0' b && leb b b'9') || ((leb b'A' b && leb b b'Z') || (leb b'a' b && leb b b'z'))

abbrev is_empty : Bytes → Bool
is_empty [] = true
is_empty (b ∷ bs) = false

unfoldable pub has_only_allowed_characters : Bytes → Bool
unfolding is_ascii_alphanumeric
has_only_allowed_characters username =
    not (is_empty username)
    && all (λ b. is_ascii_alphanumeric b || (eqb b b'_' || eqb b b'-')) username

unfoldable pub is_acceptable : Bytes → Bool
is_acceptable username = leb (length username) max_len && has_only_allowed_characters username
