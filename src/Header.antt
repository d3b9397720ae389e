-- ===== src/Header.antt =====
-- src/mnet_response.c: validation of header names and values.
pub mod Safety
mod Tests
use mnet.Base.{
  if◌then◌else◌, ℕ, Bool, true, false, ◌&&◌, ◌||◌, [], ◌∷◌, Option, none, some, ltb, leb, ◌==◌,
  Bytes, codes,
}

-- strchr(s, c) != NULL, for a c that is not NUL
unfoldable pub has : Bytes → ℕ → Bool
has [] c = false
has (d ∷ s) c = (c == d) || has s c

-- `*p == '\r' || *p == '\n' || *p < 0x20 || *p == 0x7f`
unfoldable pub is_control : ℕ → Bool
is_control c = c == 13 || (c == 10 || (ltb c 0x20 || c == 0x7f))

unfoldable pub value_loop : Bytes → Bool
unfolding is_control
value_loop [] = true
value_loop (c ∷ s) = if is_control c then false else value_loop s

-- NULL is valid.
unfoldable pub value_valid : Option Bytes → Bool
unfolding value_loop
value_valid none = true
value_valid (some s) = value_loop s

-- RFC 7230 token characters.
unfoldable pub is_token : ℕ → Bool
unfolding has
is_token c =
    (leb b'a' c && leb c b'z')
    || ((leb b'A' c && leb c b'Z')
        || ((leb b'0' c && leb c b'9') || has (codes "!#$%&'*+-.^_`|~") c))

unfoldable pub name_loop : Bytes → Bool
unfolding is_token
name_loop [] = true
name_loop (c ∷ s) = if is_token c then name_loop s else false

unfoldable pub name_valid : Option Bytes → Bool
unfolding name_loop
name_valid none = false
name_valid (some []) = false
name_valid (some (c ∷ s)) = name_loop (c ∷ s)
