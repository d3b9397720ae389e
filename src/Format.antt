-- ===== src/Format.antt =====
-- src/mnet_response.c, `mnet_jsonfv`: the directives of a format, and the loop over it.
pub mod Buffer
pub mod Cut
pub mod Spec
pub mod Loop
pub mod Rest
pub mod Moves
pub mod Fuel
pub mod Room
pub mod Guard
pub mod Items
pub mod Scan
pub mod Render
mod Tests
use mnet.Base.{
  ℕ, ◌+◌, Bool, ◌||◌, List, [], ◌∷◌, ◌++◌, Option, none, some, ◌==◌, if◌then◌else◌, ◌>>=◌, Bytes,
  codes,
}
use mnet.Header.{has}
use mnet.Client.{digits_value}

-- What stands behind a '%'. Each carries the format behind it; `number` has the bytes between the '%'
-- and the conversion character, and that character.
pub data Directive : Type 0 where
  percent : Bytes → Directive
  lone star unended : Directive
  cut : ℕ → Bytes → Directive
  string : Bytes → Directive
  char : Bytes → Directive
  number : Bytes → ℕ → Bytes → Directive

-- strchr("diouxXfFeEgGaAcCpPn", c)
unfoldable pub is_conversion : ℕ → Bool
is_conversion c = has (codes "diouxXfFeEgGaAcCpPn") c

-- The loop for p: the bytes up to a conversion character or a '%', that character, and the rest.
unfoldable pub scan_conversion : Bytes → Option (Bytes × ℕ × Bytes)
scan_conversion [] = none
scan_conversion (c ∷ f) =
    let later = scan_conversion f >>= λ found. some (c ∷ found.0, found.1, found.2) in
    if c == b'%' || is_conversion c then some ([], c, f) else later

unfoldable pub collected : Option (Bytes × ℕ × Bytes) → Directive
collected none = unended
collected (some (body, conv, rest)) = number body conv rest

-- Behind the test for a precision, at a format that is not empty.
unfoldable pub general : ℕ → Bytes → Directive
general c f =
    if c == b's'
    then string f
    else if c == b'c'
    then char f
    else collected (scan_conversion (c ∷ f))

-- Behind "%." and the digits of a precision.
unfoldable pub behind_dot : Bytes → ℕ × Bytes → Directive
behind_dot f (n, []) = general b'.' f
behind_dot f (n, c ∷ rest) = if c == b's' then cut n rest else general b'.' f

-- (A precision beyond the range of int, which C leaves undefined, is its number here.)
unfoldable pub directive : Bytes → Directive
directive [] = lone
directive (c ∷ f) =
    if c == b'%'
    then percent f
    else if c == b'*'
    then star
    else if c == b'.'
    then behind_dot f (digits_value 0 f)
    else general c f
