-- ===== src/Parse/Length.antt =====
-- src/mnet_parse.c, `read_full_body`: finding Content-Length and Transfer-Encoding, and reading the
-- value of Content-Length.
pub mod Value
pub mod Refused
use mnet.Base.{
  ℕ, zero, suc, ◌+◌, ◌-◌, ◌*◌, ◌/◌, ◌%◌, ◌^◌, Bool, true, false, ◌||◌, ◌&&◌, List, [], ◌∷◌, Option,
  none, some, ltb, leb, ◌==◌, if◌then◌else◌, Bytes, codes, starts_with_case, skip_while, length,
  drop,
}
use mnet.Parse.Text.{is_blank, cr, lf}

-- `while ((search = strcasestr(search, needle)) != NULL) { if (search >= header_end) break; if
-- (search == buffer || search[-1] == '\n') ...; search += strlen(needle); }`: what stands behind each
-- match at the start of a line. `left` bytes remain before header_end, the next `skip` bytes belong to
-- the last match, and `fresh` says that a line starts here.
unfoldable pub line_matches : Bytes → ℕ → ℕ → Bool → Bytes → List Bytes
line_matches needle zero skip fresh s = []
line_matches needle (suc left) skip fresh [] = []
line_matches needle (suc left) (suc skip) fresh (c ∷ s) = line_matches needle left skip (c == lf) s
line_matches needle (suc left) zero fresh (c ∷ s) =
    let behind = line_matches needle left (length needle - 1) (c == lf) s in
    let later = line_matches needle left 0 (c == lf) s in
    if starts_with_case needle (c ∷ s)
    then (if fresh then drop (length needle) (c ∷ s) ∷ behind else behind)
    else later

abbrev pub content_length_needle : Bytes
content_length_needle = codes "content-length:"

abbrev pub transfer_encoding_needle : Bytes
transfer_encoding_needle = codes "transfer-encoding:"

-- The variables of the loop over the digits.
pub record Digits : Type 0 where
  pub parsed : ℕ
  pub overflow : Bool
  pub digit_seen : Bool

unfoldable pub is_digit : ℕ → Bool
is_digit c = leb b'0' c && leb c b'9'

-- One round; size_t arithmetic.
unfoldable pub digit_step : ℕ → Digits → ℕ → Digits
digit_step max st c =
    let before = ltb (max / 10) st.parsed in
    let parsed = (st.parsed * 10 + (c - b'0')) % 2 ^ 64 in
    record {
      parsed = parsed;
      overflow = st.overflow || (before || ltb max parsed);
      digit_seen = true;
    }

-- `for (p = val; *p >= '0' && *p <= '9'; p++)`, with what stands at p behind it.
unfoldable pub digits_loop : ℕ → Bytes → Digits → Digits × Bytes
digits_loop max [] st = (st, [])
digits_loop max (c ∷ s) st =
    let more = digits_loop max s (digit_step max st c) in if is_digit c then more else (st, c ∷ s)

-- `*p == '\r' || *p == '\n'`
unfoldable pub at_line_end : Bytes → Bool
at_line_end [] = false
at_line_end (c ∷ s) = c == cr || c == lf

-- The outcomes of `read_full_body` that are failures.
pub data Failure : Type 0 where
  -- -1
  too_large : Failure
  -- -2
  bad_length : Failure
  -- -3
  duplicate_length : Failure
  -- -4
  transfer_encoding : Failure

pub data Parsed : Type 0 where
  failed : Failure → Parsed
  length_is : ℕ → Parsed

-- The value of one Content-Length header, from behind its colon.
unfoldable pub parse_length : ℕ → Bytes → Parsed
parse_length max val =
    let (st, rest) =
      digits_loop max (skip_while is_blank val)
        (record { parsed = 0; overflow = false; digit_seen = false }) in
    if st.digit_seen && at_line_end rest
    then (if st.overflow then failed too_large else length_is st.parsed)
    else failed bad_length

-- The value that the headers give: no Content-Length counts as 0. `left` is header_end - buffer.
unfoldable pub content_length : ℕ → ℕ → Bytes → Parsed
content_length max left buffer = elim (line_matches content_length_needle left 0 true buffer) [
  | val ∷ (_ ∷ _) ↦ failed duplicate_length
  | vals ↦ elim (line_matches transfer_encoding_needle left 0 true buffer) [
    | _ ∷ _ ↦ failed transfer_encoding
    | [] ↦ elim vals [ [] ↦ length_is 0 | val ∷ _ ↦ parse_length max val ]
  ]
]
