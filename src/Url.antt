-- ===== src/Url.antt =====
-- src/mnet_response.c: the bounds-checked URL decoder and its two wrappers.
pub mod Decoding
mod Tests
use mnet.App.{ℤ, pos, negsuc}
use mnet.Base.{
  ℕ, suc, ◌+◌, ◌-◌, ◌*◌, ◌%◌, ◌^◌, Bool, true, false, ◌&&◌, List, [], ◌∷◌, ◌++◌, Option, none, some,
  ltb, leb, ◌==◌, if◌then◌else◌, ◌>>=◌, Bytes, length,
}

-- The value of a hex digit; none is the -1 of the source.
unfoldable pub hex_value : ℕ → Option ℕ
hex_value c =
    if leb b'0' c && leb c b'9'
    then some (c - b'0')
    else if leb b'a' c && leb c b'f'
    then some (c - b'a' + 10)
    else if leb b'A' c && leb c b'F'
    then some (c - b'A' + 10)
    else none

-- (hi << 4) | lo, where lo < 16
unfoldable pub hex_pair : ℕ → ℕ → Option ℕ
unfolding hex_value
hex_pair h l = do hi ← hex_value h; lo ← hex_value l; some (hi * 16 + lo)

-- A byte that starts no escape: `+` stands for a space.
unfoldable pub plain_byte : ℕ → ℕ
plain_byte c = if c == b'+' then b' ' else c

-- `if (out == '\0') return -1; if (pos + 1 >= dst_size) return -1; dst[pos++] = out;`
unfoldable pub store : ℕ → ℕ → Bytes → Option Bytes
store dst_size v dst =
    if v == 0 then none else if leb dst_size (length dst + 1) then none else some (dst ++ v ∷ [])

-- The loop over src. The last argument is dst[0..pos).
unfoldable pub decode_loop : ℕ → Bytes → Bytes → Option Bytes
unfolding hex_pair plain_byte store
decode_loop dst_size (c ∷ h ∷ l ∷ src) dst =
    let escaped = (do
      v ← hex_pair h l
      dst' ← store dst_size v dst
      decode_loop dst_size src dst') in
    let plain = (do
      dst' ← store dst_size (plain_byte c) dst
      decode_loop dst_size (h ∷ l ∷ src) dst') in
    if c == b'%' then escaped else plain
decode_loop dst_size [] dst = some dst
decode_loop dst_size (c ∷ src) dst =
    let plain = (do dst' ← store dst_size (plain_byte c) dst; decode_loop dst_size src dst') in
    if c == b'%' then none else plain

-- The bytes written to dst before the NUL, or none where -1 is returned; `returned` is the return value.
-- src is none for a NULL pointer; dst is not NULL.
unfoldable pub decode_ex : Option Bytes → ℕ → Option Bytes
unfolding decode_loop
decode_ex none dst_size = none
decode_ex (some src) dst_size = if dst_size == 0 then none else decode_loop dst_size src []

-- `return (int)pos`, or -1: an int has 32 bits.
unfoldable pub returned : Option Bytes → ℤ
returned none = negsuc 0
returned (some dst) =
    if ltb (length dst % 2 ^ 32) (2 ^ 31)
    then pos (length dst % 2 ^ 32)
    else negsuc (2 ^ 32 - 1 - length dst % 2 ^ 32)

unfoldable pub decode_safe : Option Bytes → ℕ → Option Bytes
decode_safe none dst_size = none
decode_safe (some src) dst_size = decode_ex (some src) dst_size

unfoldable pub is_negative : ℤ → Bool
is_negative (pos n) = false
is_negative (negsuc n) = true

-- What `mnet_url_decode` leaves in `out` (its length is the return value): a failure leaves the
-- empty string, and so does a decoding whose (int)pos is negative. With no `out`, a zero size or no source
-- nothing is written and 0 is returned.
unfoldable pub decode : ℕ → Option Bytes → Bytes
unfolding is_negative returned
decode out_size none = []
decode out_size (some s) = if out_size == 0 then [] else elim (decode_ex (some s) out_size) [
  | none ↦ []
  | some out ↦ if is_negative (returned (some out)) then [] else out
]
