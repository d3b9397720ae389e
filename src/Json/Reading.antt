-- ===== src/Json/Reading.antt =====
-- What a JSON reader makes of an escaped text.
use mnet.Base.{
  ℕ, zero, suc, ◌+◌, ◌*◌, ◌/◌, ◌%◌, ◌<◌, ◌≡◌, refl, sym, ap, length, ◌∙◌, [], ◌∷◌, ◌++◌, Option,
  none, some, arith, Bytes, append_assoc, append-nil, ltb, ◌==◌, if◌then◌else◌, ◌>>=◌,
}
use mnet.Url.{hex_value}
use mnet.Json.{hex_digit, unicode_escape, piece, json_escape}
use mnet.Json.Bounds.{escaped, length-escaped, json_escape-escaped}

-- Where a reader of a JSON string stands: in the text, behind a backslash, or before k more hex
-- digits of a code whose digits so far are worth acc.
pub data Mode : Type 0 where
  text : Mode
  slash : Mode
  hex : ℕ → ℕ → Mode

-- RFC 8259: the byte that a two-byte escape stands for.
pub short : ℕ → Option ℕ
short e =
    if e == b'"'
    then some e
    else if e == b'\\'
    then some e
    else if e == b'n'
    then some 10
    else if e == b'r'
    then some 13
    else if e == b't'
    then some 9
    else none

-- The rest of a string literal, up to its closing quote: its value, and what stands behind it. An
-- unescaped control character and an unknown escape are refused.
pub read : Mode → Bytes → Bytes → Option (Bytes × Bytes)
read m [] out = none
read text (c ∷ s) out =
    let plain = read text s (out ++ c ∷ []) in
    let escape = read slash s out in
    if c == b'"'
    then some (out, s)
    else if c == b'\\'
    then escape
    else if ltb c 0x20
    then none
    else plain
read slash (c ∷ s) out =
    let unicode = read (hex 4 0) s out in
    let other = (short c >>= λ v. read text s (out ++ v ∷ [])) in
    if c == b'u' then unicode else other
read (hex zero acc) (c ∷ s) out = none
read (hex (suc k) acc) (c ∷ s) out = hex_value c >>= λ d. elim k [
  | zero ↦ read text s (out ++ (acc * 16 + d) ∷ [])
  | suc j ↦ read (hex (suc j) (acc * 16 + d)) s out
]

hex_value-hex_digit : (d : ℕ) → d < 16 → hex_value (hex_digit d) ≡ some d
unfolding hex_value hex_digit
hex_value-hex_digit d h = ground arith

hex_value-zero : hex_value b'0' ≡ some 0
unfolding hex_value
hex_value-zero = refl

read-unicode_escape :
    (c : ℕ) (t out : Bytes)
    → c < 0x20
    → read text (unicode_escape c ++ t) out ≡ read text t (out ++ c ∷ [])
unfolding read unicode_escape
read-unicode_escape c t out h =
    rw
      (
        hex_value-zero,
        hex_value-hex_digit (c / 16) (omega arith),
        hex_value-hex_digit (c % 16) (omega arith),
      )
      (ap (λ v. read text t (out ++ v ∷ [])) (omega arith))

read-piece : (c : ℕ) (t out : Bytes) → read text (piece c ++ t) out ≡ read text t (out ++ c ∷ [])
unfolding piece read short
read-piece c t out = ground (arith, read-unicode_escape c t out)

pub closing : (s rest : Bytes) → read text (b'"' ∷ rest) s ≡ some (s, rest)
unfolding read
closing s rest = refl

pub read-escaped : (s t out : Bytes) → read text (escaped s ++ t) out ≡ read text t (out ++ s)
unfolding escaped
read-escaped [] t out = ap (read text t) (sym (append-nil out))
read-escaped (c ∷ s) t out =
    ap (λ l. read text l out) (append_assoc (piece c) (escaped s) t)
    ∙ read-piece c (escaped s ++ t) out
    ∙ read-escaped s t (out ++ c ∷ [])
    ∙ ap (read text t) (append_assoc out (c ∷ []) s)

-- A text that `mnet_json_escape` writes whole, put between quotes, is read as that text, and the
-- reader stops exactly at the closing quote: nothing in the text can end the string early.
pub read-json_escape :
    (out_size : ℕ) (s rest : Bytes)
    → 6 * length s < out_size
    → read text (json_escape out_size (some s) ++ b'"' ∷ rest) [] ≡ some (s, rest)
read-json_escape out_size s rest h =
    rw (json_escape-escaped out_size s (omega (arith, length-escaped s)))
      (read-escaped s (b'"' ∷ rest) [] ∙ closing s rest)
