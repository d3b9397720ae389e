-- ===== src/Json.antt =====
-- src/mnet_response.c: `mnet_json_escape`.
pub mod Bounds
pub mod Reading
mod Tests
use mnet.Base.{
  ℕ, suc, ◌+◌, ◌-◌, ◌/◌, ◌%◌, [], ◌∷◌, ◌++◌, Option, none, some, ltb, leb, ◌==◌, if◌then◌else◌,
  Bytes, codes, length,
}

-- A digit of `%x`.
unfoldable pub hex_digit : ℕ → ℕ
hex_digit d = if ltb d 10 then b'0' + d else b'a' + (d - 10)

-- snprintf(..., "\\u%04x", c) for c < 0x20
unfoldable pub unicode_escape : ℕ → Bytes
unicode_escape c = b'\\' ∷ b'u' ∷ b'0' ∷ b'0' ∷ hex_digit (c / 16) ∷ hex_digit (c % 16) ∷ []

-- What the switch writes for one byte.
unfoldable pub piece : ℕ → Bytes
piece c =
    if c == b'"'
    then b'\\' ∷ b'"' ∷ []
    else if c == b'\\'
    then b'\\' ∷ b'\\' ∷ []
    else if c == 10
    then b'\\' ∷ b'n' ∷ []
    else if c == 13
    then b'\\' ∷ b'r' ∷ []
    else if c == 9
    then b'\\' ∷ b't' ∷ []
    else if ltb c 0x20
    then unicode_escape c
    else c ∷ []

-- `if (pos + k <= out_size - 1) out[pos++] = ...` for the k bytes of w. (One byte always fits: the
-- loop's own test is pos < out_size - 1.)
unfoldable pub put : ℕ → Bytes → Bytes → Bytes
put room out w = if leb (length out + length w) room then out ++ w else out

-- The loop, with room = out_size - 1 and out[0..pos).
unfoldable pub escape_loop : ℕ → Bytes → Bytes → Bytes
escape_loop room [] out = out
escape_loop room (c ∷ s) out =
    let next = escape_loop room s (put room out (piece c)) in
    if ltb (length out) room then next else out

-- What stands in `out` before its NUL; its length is the return value. s is none for NULL.
unfoldable pub json_escape : ℕ → Option Bytes → Bytes
json_escape out_size none = []
json_escape out_size (some s) = if out_size == 0 then [] else escape_loop (out_size - 1) s []
