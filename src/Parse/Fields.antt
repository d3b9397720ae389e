-- ===== src/Parse/Fields.antt =====
-- src/mnet_parse.c: query parameters, header lines and cookies. The two arrays of names and values are
-- a list of pairs; allocations succeed.
pub mod Bounds
pub mod Refused
mod Tests
use mnet.Base.{
  ℕ, zero, suc, ◌+◌, Bool, ◌||◌, List, [], ◌∷◌, Option, none, some, ltb, leb, ◌==◌, if◌then◌else◌,
  ◌>>=◌, Bytes, cut_at, skip_while, tokens, length, min,
}
use mnet.Limits.{max_headers, max_header_line, max_query, max_query_name, max_query_value}
use mnet.Header.{name_valid}
use mnet.Url.{decode}
use mnet.Parse.Text.{cr, lf, is_blank}

abbrev pub Pair : Type 0
Pair = Bytes × Bytes

-- How often a byte occurs: `for (p = s; *p; p++) if (*p == b) count++;`
unfoldable pub occurrences : ℕ → Bytes → ℕ
occurrences b [] = 0
occurrences b (c ∷ s) = (if c == b then 1 else 0) + occurrences b s

-- The text behind a separator, "" when there is none.
unfoldable pub or_empty : Option Bytes → Bytes
or_empty none = []
or_empty (some s) = s

-- `mnet_url_decode(s, strlen(s) + 1, s)`
unfoldable pub decode_own : Bytes → Bytes
decode_own s = decode (length s + 1) (some s)

-- The loop of `parse_query_string`, `left` rounds before idx reaches count.
unfoldable pub query_loop : ℕ → List Bytes → Option (List Pair)
query_loop zero ts = some []
query_loop (suc left) [] = some []
query_loop (suc left) (t ∷ ts) =
    let (name, back) = cut_at b'=' t in
    let value = or_empty back in
    let rest = query_loop left ts in
    if ltb max_query_name (length name) || ltb max_query_value (length value)
    then none
    else (rest >>= λ r. some ((decode_own name, decode_own value) ∷ r))

-- none is -1, which leaves no parameters.
unfoldable pub parse_query_string : Bytes → Option (List Pair)
parse_query_string [] = some []
parse_query_string (c ∷ qs) =
    query_loop (min (1 + occurrences b'&' (c ∷ qs)) max_query) (tokens (λ x. x == b'&') (c ∷ qs))

-- The loop of `parse_headers` over the lines, with `count` headers stored.
unfoldable pub header_loop : ℕ → List Bytes → Option (List Pair)
header_loop count [] = some []
header_loop count (line ∷ lines) =
    let (name, back) = cut_at b':' line in
    let skipped = header_loop count lines in
    let next = header_loop (suc count) lines in
    if leb max_headers count || leb max_header_line (length line) then none else elim back [
      | none ↦ skipped
      | some v ↦
          if name_valid (some name)
          then (next >>= λ r. some ((name, skip_while is_blank v) ∷ r))
          else skipped
    ]

-- none is -1.
unfoldable pub parse_headers : Bytes → Option (List Pair)
parse_headers headers_raw = header_loop 0 (tokens (λ c. c == cr || c == lf) headers_raw)

unfoldable pub is_space_byte : ℕ → Bool
is_space_byte c = c == b' '

unfoldable pub cookie_loop : ℕ → List Bytes → List Pair
cookie_loop zero ts = []
cookie_loop (suc left) [] = []
cookie_loop (suc left) (t ∷ ts) =
    let (name, back) = cut_at b'=' (skip_while is_space_byte t) in
    (name, skip_while is_space_byte (or_empty back)) ∷ cookie_loop left ts

unfoldable pub parse_cookies : Bytes → List Pair
parse_cookies [] = []
parse_cookies (c ∷ h) = cookie_loop (1 + occurrences b';' (c ∷ h)) (tokens (λ x. x == b';') (c ∷ h))
