-- ===== src/Format/Spec.antt =====
-- src/mnet_response.c, `mnet_jsonfv`: what becomes of a specifier that is neither %s nor %c, and the
-- value that its argument is read as.
use mnet.Base.{
  ℕ, ◌+◌, ◌-◌, ◌%◌, ◌^◌, Bool, true, false, not, ◌&&◌, ◌||◌, [], ◌∷◌, ◌++◌, Option, none, some, ltb,
  leb, if◌then◌else◌, Bytes, codes, length, find_sub,
}
use mnet.Header.{has}
use mnet.App.{ℤ, pos, negsuc}
use mnet.Client.{digits_value}

-- The low w bits of an argument, as a number.
unfoldable pub residue : ℕ → ℤ → ℕ
residue w (pos n) = n % 2 ^ w
residue w (negsuc n) = 2 ^ w - 1 - n % 2 ^ w

-- The value of an argument that is read at a signed, or an unsigned, type of w bits.
unfoldable pub to_signed : ℕ → ℤ → ℤ
to_signed w v =
    if ltb (residue w v) (2 ^ (w - 1)) then pos (residue w v) else negsuc (2 ^ w - 1 - residue w v)

unfoldable pub to_unsigned : ℕ → ℤ → ℤ
to_unsigned w v = pos (residue w v)

unfoldable pub is_numeric : ℕ → Bool
is_numeric conv = has (codes "diouxXfFeEgGaA") conv

unfoldable pub is_float : ℕ → Bool
is_float conv = has (codes "fFeEgGaA") conv

unfoldable pub is_signed : ℕ → Bool
is_signed conv = has (codes "di") conv

-- A byte at `scan` that sets `reject`.
unfoldable pub bad_char : ℕ → ℕ → Bool
bad_char conv c =
    (has (codes "0123456789+-# *.") c && not (is_numeric conv))
    || (has (codes "npa") c || (has (codes "lhzjtL") c && not (is_numeric conv)))

-- The loop for scan.
unfoldable pub any_bad : ℕ → Bytes → Bool
any_bad conv [] = false
any_bad conv (c ∷ s) = bad_char conv c || any_bad conv s

-- `reject`. (A conversion character that is itself n, p or a is found by the loop as well.)
unfoldable pub rejected : Bytes → ℕ → Bool
rejected body conv = any_bad conv (body ++ conv ∷ []) || has (codes "npa") conv

-- The bytes of s that are not in `dropped`.
unfoldable pub without : Bytes → Bytes → Bytes
without dropped [] = []
without dropped (c ∷ s) = let rest = without dropped s in if has dropped c then rest else c ∷ rest

-- nspec behind its '%': for an integer, and for a float with %L
unfoldable pub integer_spec : Bytes → ℕ → Bytes
integer_spec body conv = without (codes "lhzjt") body ++ b'l' ∷ b'l' ∷ conv ∷ []

unfoldable pub long_spec : Bytes → ℕ → Bytes
long_spec body conv = without (codes "L") body ++ b'L' ∷ conv ∷ []

unfoldable pub is_present : Option ℕ → Bool
is_present none = false
is_present (some i) = true

-- The width of the type that the argument is read as.
unfoldable pub argument_width : Bytes → ℕ
argument_width body =
    if is_present (find_sub (codes "ll") body)
    then 64
    else if has body b'l'
    then 64
    else if is_present (find_sub (codes "hh") body)
    then 8
    else if has body b'h'
    then 16
    else if has body b'z' || (has body b'j' || has body b't')
    then 64
    else 32

pub data Verdict : Type 0 where
  -- not spec_len < sizeof(spec): nothing is written, and no argument is read
  skipped : Verdict
  -- the response that reports a failure
  refused : Verdict
  -- a behaviour that C leaves undefined: `width` overflows
  overrun : Verdict
  -- what snprintf gets behind the '%', and how the argument is read
  as_signed as_unsigned : ℕ → Bytes → Verdict
  as_double as_long_double : Bytes → Verdict

unfoldable pub real_verdict : Bytes → ℕ → Verdict
real_verdict body conv =
    if has body b'L' then as_long_double (long_spec body conv) else as_double (body ++ conv ∷ [])

unfoldable pub integer_verdict : Bytes → ℕ → Verdict
integer_verdict body conv =
    if is_signed conv
    then as_signed (argument_width body) (integer_spec body conv)
    else as_unsigned (argument_width body) (integer_spec body conv)

-- The width in front: `long width`, which 2 ^ 63 overflows.
unfoldable pub width_verdict : ℕ → Verdict → Verdict
width_verdict width otherwise =
    if leb (2 ^ 63) width then overrun else if ltb 4096 width then refused else otherwise

unfoldable pub verdict : Bytes → ℕ → Verdict
verdict body conv =
    if leb 64 (length body + 2)
    then skipped
    else if rejected body conv
    then refused
    else width_verdict (digits_value 0 body).0
        (if is_float conv then real_verdict body conv else integer_verdict body conv)
