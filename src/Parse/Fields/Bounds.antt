-- ===== src/Parse/Fields/Bounds.antt =====
-- What the parsed query parameters and headers are bounded by.
use mnet.Base.{
  ℕ, zero, suc, ◌+◌, ◌≤◌, ◌<◌, ◌≡◌, Bool, true, List, [], ◌∷◌, some, Bytes, arith, cut_at,
  skip_while, length, All, Bool-cases, inl, inr, Option-cases,
}
use mnet.Limits.{max_headers, max_header_line, max_query, max_query_name, max_query_value}
use mnet.Header.{name_valid}
use mnet.Url.{decode, decode_ex}
use mnet.Url.Decoding.{decode_ex_sound, length-Decodes}
use mnet.Parse.Text.{is_blank}
use mnet.Parse.Fields.{
  Pair, decode_own, or_empty, query_loop, parse_query_string, header_loop, parse_headers,
}

length-decode_own : (s : Bytes) → length (decode_own s) ≤ length s
unfolding decode_own decode
length-decode_own s = elim (Option-cases (decode_ex (some s) (length s + 1))) [
  | inl refused ↦ rw refused (ground arith)
  | inr (out, e) ↦ rw e (ground (arith, length-Decodes (decode_ex_sound s out (length s + 1) e).0))
]

abbrev Small : Pair → Type 0
Small p = (length p.0 ≤ max_query_name) × (length p.1 ≤ max_query_value)

-- A round that stores a parameter.
query_round :
    (left : ℕ) (t : Bytes) (ts : List Bytes) (ps : List Pair)
    → query_loop (suc left) (t ∷ ts) ≡ some ps
    → (r : List Pair) × (query_loop left ts ≡ some r)
      × (ps ≡ (decode_own (cut_at b'=' t).0, decode_own (or_empty (cut_at b'=' t).1)) ∷ r)
      × (length (cut_at b'=' t).0 ≤ max_query_name)
      × (length (or_empty (cut_at b'=' t).1) ≤ max_query_value)
unfolding query_loop
query_round left t ts ps h = elim (Option-cases (query_loop left ts)) [
  | inl e ↦ absurd (ground (arith, e))
  | inr (r, e) ↦ (r, e, ground (arith, e), ground (arith, e), ground (arith, e))
]

query_end : (left : ℕ) (ts : List Bytes) (ps : List Pair) → query_loop zero ts ≡ some ps → ps ≡ []
unfolding query_loop
query_end left ts ps h = cc

query_done : (left : ℕ) (ps : List Pair) → query_loop (suc left) [] ≡ some ps → ps ≡ []
unfolding query_loop
query_done left ps h = cc

query_loop_bounds :
    (left : ℕ) (ts : List Bytes) (ps : List Pair)
    → query_loop left ts ≡ some ps
    → (length ps ≤ left) × All Small ps
query_loop_bounds zero ts ps h = rw (query_end zero ts ps h) (omega arith, tt)
query_loop_bounds (suc left) [] ps h = rw (query_done left ps h) (omega arith, tt)
query_loop_bounds (suc left) (t ∷ ts) ps h =
    let (r, e, whole, small_name, small_value) = query_round left t ts ps h in
    let (few, small) = query_loop_bounds left ts r e in
    rw whole (
      omega arith,
      (
        (
          omega (arith, length-decode_own (cut_at b'=' t).0),
          omega (arith, length-decode_own (or_empty (cut_at b'=' t).1)),
        ),
        small,
      ),
    )

-- A query string gives at most MNET_MAX_QUERY parameters, and no name and no value is longer than its
-- limit, also after decoding.
pub parse_query_string_bounds :
    (qs : Bytes) (ps : List Pair)
    → parse_query_string qs ≡ some ps
    → (length ps ≤ max_query)
      × All (λ p. (length p.0 ≤ max_query_name) × (length p.1 ≤ max_query_value)) ps
unfolding parse_query_string
parse_query_string_bounds [] ps h = ground arith
parse_query_string_bounds (c ∷ qs) ps h =
    let (few, small) = query_loop_bounds _ _ ps h in (omega arith, small)

abbrev pub IsHeader : Pair → Type 0
IsHeader p = (name_valid (some p.0) ≡ true) × (length p.0 + length p.1 < max_header_line)

cut_at-length :
    (b : ℕ) (s v : Bytes)
    → (cut_at b s).1 ≡ some v
    → length (cut_at b s).0 + length v + 1 ≡ length s
unfolding cut_at
cut_at-length b [] v h = absurd (cc)
cut_at-length b (c ∷ s) v h = ground (arith, cut_at-length b s v)

skip_while-le : (p : ℕ → Bool) (s : Bytes) → length (skip_while p s) ≤ length s
unfolding skip_while
skip_while-le p [] = omega arith
skip_while-le p (c ∷ s) = ground (arith, skip_while-le p s)

-- A line is stored as a header, or skipped.
data Round (count : ℕ) (line : Bytes) (lines : List Bytes) (hs : List Pair) : Type 0 where
  stored :
      (r : List Pair) (v : Bytes)
      → count < max_headers
      → length line < max_header_line
      → (cut_at b':' line).1 ≡ some v
      → name_valid (some (cut_at b':' line).0) ≡ true
      → header_loop (suc count) lines ≡ some r
      → hs ≡ ((cut_at b':' line).0, skip_while is_blank v) ∷ r
      → Round count line lines hs
  skipped : header_loop count lines ≡ some hs → Round count line lines hs

header_round :
    (count : ℕ) (line : Bytes) (lines : List Bytes) (hs : List Pair)
    → header_loop count (line ∷ lines) ≡ some hs
    → Round count line lines hs
unfolding header_loop
header_round count line lines hs h = elim (Option-cases (cut_at b':' line).1) [
  | inl none_found ↦ skipped (ground (arith, none_found))
  | inr (v, colon) ↦ elim (Bool-cases (name_valid (some (cut_at b':' line).0))) [
    | inl valid ↦ elim (Option-cases (header_loop (suc count) lines)) [
      | inl failed ↦ absurd (ground (arith, failed))
      | inr (r, e) ↦
          stored r v (ground (arith, e)) (ground (arith, e)) colon valid e (ground (arith, e))
    ]
    | inr invalid ↦ skipped (ground (arith, colon, invalid))
  ]
]

header_loop_bounds :
    (count : ℕ) (lines : List Bytes) (hs : List Pair)
    → count ≤ max_headers
    → header_loop count lines ≡ some hs
    → (count + length hs ≤ max_headers) × All IsHeader hs
header_loop_bounds count [] hs le h = unfold header_loop in ground arith
header_loop_bounds count (line ∷ lines) hs le h =
    by_round (header_round count line lines hs h) (header_loop_bounds count lines)
      (header_loop_bounds (suc count) lines)
  where
    by_round :
        Round count line lines hs
        → ((r : List Pair)
            → count ≤ max_headers
            → header_loop count lines ≡ some r
            → (count + length r ≤ max_headers) × All IsHeader r)
        → ((r : List Pair)
            → suc count ≤ max_headers
            → header_loop (suc count) lines ≡ some r
            → (suc count + length r ≤ max_headers) × All IsHeader r)
        → (count + length hs ≤ max_headers) × All IsHeader hs
    by_round (skipped e) ih ih' = ih hs le e
    by_round (stored r v few short colon valid e whole) ih ih' =
        let (fits, good) = ih' r few e in
        rw whole (
          omega arith,
          ((valid, omega (arith, cut_at-length b':' line v colon, skip_while-le is_blank v)), good),
        )

-- A header section gives at most MNET_MAX_HEADERS headers; each name is a valid token, and each name
-- and value come from a line shorter than MNET_MAX_HEADER_LINE.
pub parse_headers_bounds :
    (headers_raw : Bytes) (hs : List Pair)
    → parse_headers headers_raw ≡ some hs
    → (length hs ≤ max_headers) × All IsHeader hs
unfolding parse_headers
parse_headers_bounds raw hs h =
    let (few, good) = header_loop_bounds 0 _ hs (omega arith) h in (omega arith, good)
