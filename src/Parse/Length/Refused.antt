-- ===== src/Parse/Length/Refused.antt =====
-- When the value of Content-Length is refused.
use mnet.Base.{
  ℕ, ◌+◌, ◌-◌, ◌*◌, ◌≤◌, ◌<◌, ◌≡◌, ◌≢◌, inl, inr, refl, sym, ap, ◌∙◌, Bool, true, false, [], ◌∷◌,
  ◌++◌, if◌then◌else◌, arith, Bytes, All, skip_while, Bool-cases,
}
use mnet.Parse.Text.{is_blank}
use mnet.Parse.Length.{
  Digits, is_digit, digit_step, digits_loop, at_line_end, too_large, bad_length, failed, length_is,
  parse_length,
}
use mnet.Parse.Length.Value.{
  value, IsDigits, Ends, loop_end, loop_round, zero_digits, seen_first, skip_blanks,
  Ends-at_line_end,
}

-- A value that is written as blanks, at least one digit and a line end, and the number that it spells.
pub record IsNumber (val : Bytes) (n : ℕ) : Type 0 where
  pub blanks : Bytes
  pub first : ℕ
  pub digits : Bytes
  pub rest : Bytes
  pub written_so : val ≡ blanks ++ ((first ∷ digits) ++ rest)
  pub are_blanks : All (λ c. is_blank c ≡ true) blanks
  pub are_digits : IsDigits (first ∷ digits)
  pub ends : at_line_end rest ≡ true
  pub spells : n ≡ value 0 (first ∷ digits)

-- What the loop has read is no more than the number n, and overflow is only set beyond the limit, also where
-- the arithmetic wraps around.
abbrev Below : ℕ → ℕ → Digits → Type 0
Below max n st = (st.parsed ≤ n) × (st.overflow ≡ true → max < n)

digit_step-Below :
    (max n c : ℕ) (st : Digits)
    → Below max n st
    → Below max (n * 10 + (c - b'0')) (digit_step max st c)
unfolding digit_step
digit_step-Below max n c st h = ground arith

-- The loop takes the digits in front, and stops behind them.
record Taken (max n : ℕ) (s : Bytes) (st : Digits) : Type 0 where
  digits : Bytes
  rest : Bytes
  split : s ≡ digits ++ rest
  are_digits : IsDigits digits
  stops : (digits_loop max s st).1 ≡ rest
  below : Below max (value n digits) (digits_loop max s st).0
  unseen : digits ≡ [] → (digits_loop max s st).0 ≡ st

digits_loop-Taken : (max n : ℕ) (s : Bytes) (st : Digits) → Below max n st → Taken max n s st
digits_loop-Taken max n [] st h = record {
  digits = [];
  rest = [];
  split = refl;
  are_digits = tt;
  stops = ap (λ x. x.1) (loop_end max [] st tt);
  below = rw (loop_end max [] st tt) h;
  unseen = λ e. ap (λ x. x.0) (loop_end max [] st tt);
}
digits_loop-Taken max n (c ∷ s) st h = elim (Bool-cases (is_digit c)) [
  | inl d ↦
      let more =
        digits_loop-Taken max (n * 10 + (c - b'0')) s (digit_step max st c)
          (digit_step-Below max n c st h) in
      record {
        digits = c ∷ more.digits;
        rest = more.rest;
        split = ap (λ x. c ∷ x) more.split;
        are_digits = (d, more.are_digits);
        stops = rw (loop_round max c s st d) more.stops;
        below = rw (loop_round max c s st d) more.below;
        unseen = λ e. absurd (cc);
      }
  | inr e ↦ record {
    digits = [];
    rest = c ∷ s;
    split = refl;
    are_digits = tt;
    stops = ap (λ x. x.1) (loop_end max (c ∷ s) st e);
    below = rw (loop_end max (c ∷ s) st e) h;
    unseen = λ _. ap (λ x. x.0) (loop_end max (c ∷ s) st e);
  }
]

-- The blanks in front of a text.
leading :
    (s : Bytes)
    → (blanks : Bytes) × (s ≡ blanks ++ skip_while is_blank s) × All (λ c. is_blank c ≡ true) blanks
unfolding skip_while
leading [] = ([], refl, tt)
leading (c ∷ s) = elim (Bool-cases (is_blank c)) [
  | inl e ↦
      let (blanks, split, are) = leading s in rw e (c ∷ blanks, ap (λ x. c ∷ x) split, (e, are))
  | inr e ↦ rw e ([], refl, tt)
]

start-Below : (max : ℕ) → Below max 0 zero_digits
start-Below max = ground arith

-- Without overflow the number that was read is within the limit.
pub digits_loop-within :
    (max : ℕ) (s : Bytes) (st : Digits)
    → (st.overflow ≡ false → st.parsed ≤ max)
    → (digits_loop max s st).0.overflow ≡ false
    → (digits_loop max s st).0.parsed ≤ max
digits_loop-within max [] st h = rw (loop_end max [] st tt) h
digits_loop-within max (c ∷ s) st h = elim (Bool-cases (is_digit c)) [
  | inl d ↦
      rw (loop_round max c s st d)
        (digits_loop-within max s (digit_step max st c) (unfold digit_step in ground arith))
  | inr e ↦ rw (loop_end max (c ∷ s) st e) h
]

-- A value is refused as too large only when it is the text of a number beyond the limit.
pub parse_length-too_large :
    (max : ℕ) (val : Bytes)
    → parse_length max val ≡ failed too_large
    → (n : ℕ) × IsNumber val n × (max < n)
unfolding parse_length
parse_length-too_large max val h =
    let (blanks, front, are) = leading val in
    let t = digits_loop-Taken max 0 (skip_while is_blank val) zero_digits (start-Below max) in
    by_digits t.digits t.rest blanks front are t.split t.are_digits t.stops t.below t.unseen
  where
    last : Digits
    last = (digits_loop max (skip_while is_blank val) zero_digits).0

    by_digits :
        (ds rest blanks : Bytes)
        → val ≡ blanks ++ skip_while is_blank val
        → All (λ c. is_blank c ≡ true) blanks
        → skip_while is_blank val ≡ ds ++ rest
        → IsDigits ds
        → (digits_loop max (skip_while is_blank val) zero_digits).1 ≡ rest
        → Below max (value 0 ds) last
        → (ds ≡ [] → last ≡ zero_digits)
        → (n : ℕ) × IsNumber val n × (max < n)
    by_digits [] rest blanks front are split ds stops below unseen =
        let none_seen : last.digit_seen ≡ false = ap (λ (x : Digits). x.digit_seen) (unseen refl) in
        absurd (ground arith)
    by_digits (c ∷ ds) rest blanks front are split digits stops below unseen = (
      value 0 (c ∷ ds),
      record {
        blanks = blanks;
        first = c;
        digits = ds;
        rest = rest;
        written_so = front ∙ ap (λ x. blanks ++ x) split;
        are_blanks = are;
        are_digits = digits;
        ends = ap at_line_end (sym stops) ∙ ground arith;
        spells = refl;
      },
      below.1 (ground arith),
    )

loop_behind :
    (max : ℕ) (ds rest : Bytes) (st : Digits)
    → IsDigits ds
    → Ends rest
    → (digits_loop max (ds ++ rest) st).1 ≡ rest
loop_behind max [] rest st d e = ap (λ x. x.1) (loop_end max rest st e)
loop_behind max (c ∷ ds) rest st d e =
    rw (loop_round max c (ds ++ rest) st d.0) (loop_behind max ds rest (digit_step max st c) d.1 e)

-- The text of a number is never refused as malformed.
pub parse_length-IsNumber :
    (max : ℕ) (val : Bytes) (n : ℕ) → IsNumber val n → parse_length max val ≢ failed bad_length
unfolding parse_length
parse_length-IsNumber max val n is =
    let seen = seen_first max is.first (is.digits ++ is.rest) is.are_digits.0 in
    let behind =
      loop_behind max (is.first ∷ is.digits) is.rest zero_digits is.are_digits
        (Ends-at_line_end is.rest is.ends) in
    let stops : at_line_end (digits_loop max (is.first ∷ (is.digits ++ is.rest)) zero_digits).1
        ≡ true =
      ap at_line_end behind ∙ is.ends in
    rw
      (
        is.written_so,
        skip_blanks is.blanks (is.digits ++ is.rest) is.first is.are_blanks is.are_digits.0,
        seen,
        stops,
      )
      (by_overflow _ _)
  where
    by_overflow :
        (b : Bool) (m : ℕ) → (if b then failed too_large else length_is m) ≢ failed bad_length
    by_overflow true m = λ e. cc
    by_overflow false m = λ e. cc
