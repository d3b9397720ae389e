-- ===== src/Base/Text.antt =====
-- C strings as the bytes before their NUL, and the string functions of the C library that the
-- sources call: strcmp, strcasecmp, strstr, strchr, strtok_r and the scans for a byte.
use Prim.Native.Nat.{ℕ, suc, ◌+◌}
use Prim.Native.Char.{code}
use Prim.Native.String.{String}
use mathlib.Core.Path.{◌≡◌, refl}
use mathlib.Core.Logic.{◌↔◌, ◌≢◌}
use mathlib.Core.Bool.{Bool, true, false, ◌&&◌}
use mathlib.Core.List.{List, [], ◌∷◌, ◌++◌}
use mathlib.Core.Option.{Option, none, some}
use native.Mathlib.Omega.{arith}
use mnet.Base.Lists.{All}
use mnet.Base.Tests.{==_ne, leb, ◌==◌, if◌then◌else◌, ◌>>=◌}

abbrev pub Bytes : Type 0
Bytes = List ℕ

-- The code points of a literal: its bytes, when the text is ASCII.
abbrev pub codes : String → Bytes
codes String.[] = []
codes (String.◌∷◌ c s) = code c ∷ codes s

-- strcmp(s, t) == 0
unfoldable pub str_eq : Bytes → Bytes → Bool
str_eq [] [] = true
str_eq [] (d ∷ t) = false
str_eq (c ∷ s) [] = false
str_eq (c ∷ s) (d ∷ t) = (c == d) && str_eq s t

pub str_eq_iff : (s t : Bytes) → (str_eq s t ≡ true) ↔ (s ≡ t)
unfolding str_eq
str_eq_iff [] [] = (λ _. refl, λ _. refl)
str_eq_iff [] (d ∷ t) = ground arith
str_eq_iff (c ∷ s) [] = ground arith
str_eq_iff (c ∷ s) (d ∷ t) = ground (arith, str_eq_iff s t)

-- tolower in the C locale
unfoldable pub to_lower : ℕ → ℕ
to_lower c = if leb b'A' c && leb c b'Z' then c + 32 else c

-- strcasecmp(s, t) == 0
unfoldable pub str_case_eq : Bytes → Bytes → Bool
unfolding to_lower
str_case_eq [] [] = true
str_case_eq [] (d ∷ t) = false
str_case_eq (c ∷ s) [] = false
str_case_eq (c ∷ s) (d ∷ t) = (to_lower c == to_lower d) && str_case_eq s t

-- strncmp(s, p, strlen(p)) == 0
unfoldable pub starts_with : Bytes → Bytes → Bool
starts_with [] s = true
starts_with (c ∷ p) [] = false
starts_with (c ∷ p) (d ∷ s) = (c == d) && starts_with p s

-- strncasecmp(s, p, strlen(p)) == 0
unfoldable pub starts_with_case : Bytes → Bytes → Bool
unfolding to_lower
starts_with_case [] s = true
starts_with_case (c ∷ p) [] = false
starts_with_case (c ∷ p) (d ∷ s) = (to_lower c == to_lower d) && starts_with_case p s

-- strstr(s, p) - s, or none for NULL
unfoldable pub find_sub : Bytes → Bytes → Option ℕ
find_sub p [] = if starts_with p [] then some 0 else none
find_sub p (c ∷ s) =
    let later = find_sub p s >>= λ i. some (suc i) in
    if starts_with p (c ∷ s) then some 0 else later

-- s cut at the first `b`: what stands before it, and what stands behind it (none: no `b`)
unfoldable pub cut_at : ℕ → Bytes → Bytes × Option Bytes
cut_at b [] = ([], none)
cut_at b (c ∷ s) =
    let (front, back) = cut_at b s in if c == b then ([], some s) else (c ∷ front, back)

-- The longest prefix without `b`, and the rest.
unfoldable pub span : ℕ → Bytes → Bytes × Bytes
span b [] = ([], [])
span b (c ∷ s) = let (front, back) = span b s in if c == b then ([], c ∷ s) else (c ∷ front, back)

-- The bytes behind leading blanks: `while (blank(*p)) p++`.
unfoldable pub skip_while : (ℕ → Bool) → Bytes → Bytes
skip_while p [] = []
skip_while p (c ∷ s) = let rest = skip_while p s in if p c then rest else c ∷ s

-- A token that ends is delivered unless it is empty.
unfoldable pub deliver : Bytes → List Bytes → List Bytes
deliver [] more = more
deliver (c ∷ cur) more = (c ∷ cur) ∷ more

-- The tokens of strtok_r: the longest runs that hold no delimiter. `cur` is the run so far.
unfoldable pub tokens_from : (ℕ → Bool) → Bytes → Bytes → List Bytes
unfolding deliver
tokens_from delim [] cur = deliver cur []
tokens_from delim (c ∷ s) cur =
    let ended = deliver cur (tokens_from delim s []) in
    let longer = tokens_from delim s (cur ++ c ∷ []) in if delim c then ended else longer

unfoldable pub tokens : (ℕ → Bool) → Bytes → List Bytes
unfolding tokens_from
tokens delim s = tokens_from delim s []

-- `span` cuts at the first `b`.
pub span-append : (b : ℕ) (s : Bytes) → (span b s).0 ++ (span b s).1 ≡ s
unfolding span
span-append b [] = refl
span-append b (c ∷ s) = ground (arith, span-append b s)

pub span-Lacks : (b : ℕ) (s : Bytes) → All (λ c. c ≢ b) (span b s).0
unfolding span
span-Lacks b [] = tt
span-Lacks b (c ∷ s) = ground (arith, span-Lacks b s)

-- What stands at the cut.
abbrev pub StartsAt : ℕ → Bytes → Type 0
StartsAt b [] = Unit
StartsAt b (c ∷ s) = c ≡ b

pub span-StartsAt : (b : ℕ) (s : Bytes) → StartsAt b (span b s).1
unfolding span
span-StartsAt b [] = tt
span-StartsAt b (c ∷ s) = ground (arith, span-StartsAt b s)

-- A text in two parts, the first free of `b` and the second beginning with it, is cut there.
pub span-of_parts :
    (b : ℕ) (x y : Bytes) → All (λ c. c ≢ b) x → StartsAt b y → span b (x ++ y) ≡ (x, y)
unfolding span
span-of_parts b [] [] h at_b = refl
span-of_parts b [] (c ∷ y) h at_b = ground arith
span-of_parts b (c ∷ x) y h at_b = rw (span-of_parts b x y h.1 at_b, ==_ne c b h.0)

pub cut_at-Lacks : (b : ℕ) (s : Bytes) → All (λ c. c ≢ b) (cut_at b s).0
unfolding cut_at
cut_at-Lacks b [] = tt
cut_at-Lacks b (c ∷ s) = ground (arith, cut_at-Lacks b s)
