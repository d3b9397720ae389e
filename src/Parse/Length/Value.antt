-- ===== src/Parse/Length/Value.antt =====
-- The value that is read for Content-Length is the number that its digits spell, or is refused.
use mnet.Base.{
  ℕ, ◌+◌, ◌-◌, ◌*◌, ◌^◌, ◌≤◌, ◌<◌, ◌≡◌, refl, ap, true, false, [], ◌∷◌, ◌++◌, leb, if◌then◌else◌,
  arith, Bytes, All, skip_while,
}
use mnet.Parse.Text.{is_blank}
use mnet.Parse.Length.{
  Digits, is_digit, digit_step, digits_loop, at_line_end, too_large, failed, length_is,
  parse_length,
}

-- The number that decimal digits spell behind n.
abbrev pub value : ℕ → Bytes → ℕ
value n [] = n
value n (c ∷ s) = value (n * 10 + (c - b'0')) s

le-value : (n : ℕ) (s : Bytes) → n ≤ value n s
le-value n [] = omega arith
le-value n (c ∷ s) = omega (arith, le-value (n * 10 + (c - b'0')) s)

abbrev pub IsDigits : Bytes → Type 0
IsDigits = All (λ c. is_digit c ≡ true)

-- The first byte of a rest is no digit.
abbrev pub Ends : Bytes → Type 0
Ends [] = Unit
Ends (c ∷ s) = is_digit c ≡ false

-- What the loop knows of the number n that it has read: without overflow it is that number and within
-- the limit; with it the number is beyond the limit.
abbrev Reads : ℕ → ℕ → Digits → Type 0
Reads max n st =
    (st.overflow ≡ false → (st.parsed ≡ n) × (n ≤ max)) × (st.overflow ≡ true → max < n)

digit_step-Reads :
    (max n c : ℕ) (st : Digits)
    → max + 10 < 2 ^ 64
    → is_digit c ≡ true
    → Reads max n st
    → Reads max (n * 10 + (c - b'0')) (digit_step max st c)
unfolding digit_step is_digit
digit_step-Reads max n c st small d h = ground arith

pub loop_end :
    (max : ℕ) (rest : Bytes) (st : Digits) → Ends rest → digits_loop max rest st ≡ (st, rest)
unfolding digits_loop
loop_end max [] st e = refl
loop_end max (c ∷ s) st e = rw e

pub loop_round :
    (max c : ℕ) (s : Bytes) (st : Digits)
    → is_digit c ≡ true
    → digits_loop max (c ∷ s) st ≡ digits_loop max s (digit_step max st c)
unfolding digits_loop
loop_round max c s st d = rw d

digits_loop-Reads :
    (max n : ℕ) (ds rest : Bytes) (st : Digits)
    → max + 10 < 2 ^ 64
    → IsDigits ds
    → Ends rest
    → Reads max n st
    → ((digits_loop max (ds ++ rest) st).1 ≡ rest)
      × Reads max (value n ds) (digits_loop max (ds ++ rest) st).0
digits_loop-Reads max n [] rest st small d e h =
    (rw (loop_end max rest st e), rw (loop_end max rest st e) h)
digits_loop-Reads max n (c ∷ ds) rest st small d e h = rw (loop_round max c (ds ++ rest) st d.0) (
    digits_loop-Reads max (n * 10 + (c - b'0')) ds rest (digit_step max st c) small d.1 e
      (digit_step-Reads max n c st small d.0 h))

pub digits_loop-seen :
    (max : ℕ) (s : Bytes) (st : Digits)
    → st.digit_seen ≡ true
    → (digits_loop max s st).0.digit_seen ≡ true
unfolding digits_loop digit_step
digits_loop-seen max [] st h = h
digits_loop-seen max (c ∷ s) st h =
    ground (arith, digits_loop-seen max s (digit_step max st c) refl)

pub skip_blanks :
    (blanks s : Bytes) (c : ℕ)
    → All (λ x. is_blank x ≡ true) blanks
    → is_digit c ≡ true
    → skip_while is_blank (blanks ++ c ∷ s) ≡ c ∷ s
unfolding skip_while is_blank is_digit
skip_blanks [] s c h d = ground arith
skip_blanks (b ∷ blanks) s c h d = ground (arith, skip_blanks blanks s c h.1 d)

pub Ends-at_line_end : (rest : Bytes) → at_line_end rest ≡ true → Ends rest
unfolding at_line_end is_digit
Ends-at_line_end [] h = tt
Ends-at_line_end (c ∷ s) h = ground arith

abbrev pub zero_digits : Digits
zero_digits = record { parsed = 0; overflow = false; digit_seen = false }

pub seen_first :
    (max c : ℕ) (s : Bytes)
    → is_digit c ≡ true
    → (digits_loop max (c ∷ s) zero_digits).0.digit_seen ≡ true
seen_first max c s d =
    rw (loop_round max c s zero_digits d)
      (digits_loop-seen max s (digit_step max zero_digits c) (unfold digit_step in refl))

-- The variables behind the digits of a value.
ends_in : ℕ → Bytes → Bytes → Digits
ends_in max digits rest = (digits_loop max (digits ++ rest) zero_digits).0

judge :
    (max : ℕ) (c : ℕ) (ds rest : Bytes)
    → max + 10 < 2 ^ 64
    → IsDigits (c ∷ ds)
    → Ends rest
    → (digits_loop max ((c ∷ ds) ++ rest) zero_digits ≡ (ends_in max (c ∷ ds) rest, rest))
      × ((ends_in max (c ∷ ds) rest).digit_seen ≡ true)
      × Reads max (value 0 (c ∷ ds)) (ends_in max (c ∷ ds) rest)
unfolding ends_in
judge max c ds rest small d e =
    let (behind, reads) =
      digits_loop-Reads max 0 (c ∷ ds) rest zero_digits small d e (ground arith) in
    (
      ap (λ x. ((digits_loop max ((c ∷ ds) ++ rest) zero_digits).0, x)) behind,
      seen_first max c (ds ++ rest) d.0,
      reads,
    )

-- What `read_full_body` makes of a value that is written as blanks, digits and a line end: the number
-- that the digits spell when it is within the limit, and the answer -1 (413) when it is beyond it,
-- however many digits there are. max_body_size + 10 must not wrap around.
pub parse_length_lem :
    (max c : ℕ) (blanks digits rest : Bytes)
    → max + 10 < 2 ^ 64
    → All (λ x. is_blank x ≡ true) blanks
    → IsDigits (c ∷ digits)
    → at_line_end rest ≡ true
    → parse_length max (blanks ++ ((c ∷ digits) ++ rest)) ≡ (
        if leb (value 0 (c ∷ digits)) max
        then length_is (value 0 (c ∷ digits))
        else failed too_large)
unfolding parse_length
parse_length_lem max c blanks digits rest small b d e =
    rw (skip_blanks blanks (digits ++ rest) c b d.0)
      (ground (arith, judge max c digits rest small d (Ends-at_line_end rest e)))
