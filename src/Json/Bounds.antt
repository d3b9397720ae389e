-- ===== src/Json/Bounds.antt =====
-- The buffer of `mnet_json_escape` is never overrun, and six bytes for each byte are enough.
use mnet.Base.{
  ℕ, ◌+◌, ◌-◌, ◌*◌, ◌≤◌, ◌<◌, ◌≡◌, refl, sym, ◌∙◌, [], ◌∷◌, ◌++◌, Option, none, some, arith, Bytes,
  length, length-append, append_assoc, append-nil, ltb, if◌then◌else◌, true,
}
use mnet.Json.{unicode_escape, piece, put, escape_loop, json_escape}

-- The whole escape of a text.
unfoldable pub escaped : Bytes → Bytes
escaped [] = []
escaped (c ∷ s) = piece c ++ escaped s

put-le : (room : ℕ) (out w : Bytes) → length out ≤ room → length (put room out w) ≤ room
unfolding put
put-le room out w h = ground (arith, length-append out w)

escape_round :
    (room c : ℕ) (s out : Bytes)
    → escape_loop room (c ∷ s) out
      ≡ (if ltb (length out) room then escape_loop room s (put room out (piece c)) else out)
unfolding escape_loop
escape_round room c s out = refl

escape_loop-le :
    (room : ℕ) (s out : Bytes) → length out ≤ room → length (escape_loop room s out) ≤ room
escape_loop-le room [] out h = unfold escape_loop in h
escape_loop-le room (c ∷ s) out h = rw (escape_round room c s out) (
    ground (arith, escape_loop-le room s (put room out (piece c)) (put-le room out (piece c) h), h))

-- With a buffer of at least one byte the escape and its NUL stay inside it.
pub json_escape-lt :
    (out_size : ℕ) (s : Option Bytes) → 0 < out_size → length (json_escape out_size s) < out_size
unfolding json_escape
json_escape-lt out_size none h = h
json_escape-lt out_size (some s) h =
    ground (arith, escape_loop-le (out_size - 1) s [] (omega arith))

length-piece : (c : ℕ) → (1 ≤ length (piece c)) × (length (piece c) ≤ 6)
unfolding piece unicode_escape
length-piece c = ground arith

pub length-escaped : (s : Bytes) → length (escaped s) ≤ 6 * length s
unfolding escaped
length-escaped [] = omega arith
length-escaped (c ∷ s) =
    omega (arith, length-escaped s, length-append (piece c) (escaped s), length-piece c)

room_for :
    (room c : ℕ) (s out : Bytes)
    → length out + length (escaped (c ∷ s)) ≤ room
    → (ltb (length out) room ≡ true)
      × (put room out (piece c) ≡ out ++ piece c)
      × (length (out ++ piece c) + length (escaped s) ≤ room)
unfolding escaped put
room_for room c s out h =
    ground (arith, length-append (piece c) (escaped s), length-append out (piece c), length-piece c)

rest : (c : ℕ) (s out : Bytes) → (out ++ piece c) ++ escaped s ≡ out ++ escaped (c ∷ s)
unfolding escaped
rest c s out = append_assoc out (piece c) (escaped s)

escape_loop-escaped :
    (room : ℕ) (s out : Bytes)
    → length out + length (escaped s) ≤ room
    → escape_loop room s out ≡ out ++ escaped s
escape_loop-escaped room [] out h = unfold escape_loop escaped in sym (append-nil out)
escape_loop-escaped room (c ∷ s) out h =
    let fits = room_for room c s out h in
    rw (escape_round room c s out, fits.0, fits.1)
      (escape_loop-escaped room s (out ++ piece c) fits.2 ∙ rest c s out)

-- When the whole escape and its NUL fit, it is written whole.
pub json_escape-escaped :
    (out_size : ℕ) (s : Bytes)
    → length (escaped s) < out_size
    → json_escape out_size (some s) ≡ escaped s
unfolding json_escape
json_escape-escaped out_size s h =
    ground (arith, escape_loop-escaped (out_size - 1) s [] (omega arith))
