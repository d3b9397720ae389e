-- ===== src/Response/Numbers.antt =====
-- The numbers that are printed into headers.
use mnet.Base.{
  ℕ, zero, suc, ◌+◌, ◌-◌, ◌*◌, ◌/◌, ◌%◌, ◌^◌, ◌≤◌, ◌<◌, ◌≡◌, refl, true, [], ◌∷◌, ◌++◌, arith, ltb,
  leb, Bytes, All, if◌then◌else◌, Bool-cases, inl, inr, sym, ap, subst, ◌∙◌,
}
use mnet.Parse.Text.{is_blank}
use mnet.Parse.Length.{at_line_end, is_digit, parse_length, length_is, failed, too_large}
use mnet.Parse.Length.Value.{value, IsDigits, parse_length_lem}
use mnet.App.{digits_from, decimal}

-- With the fuel above the number, the digits spell it.
digits_from-value :
    (fuel n : ℕ) (tail : Bytes) → n < fuel → value 0 (digits_from fuel n tail) ≡ value n tail
unfolding digits_from
digits_from-value zero n tail h = absurd (omega arith)
digits_from-value (suc fuel) n tail h =
    let ih : (1 ≤ n)
        → value 0 (digits_from fuel (n / 10) ((n % 10 + b'0') ∷ tail))
          ≡ value (n / 10) ((n % 10 + b'0') ∷ tail) =
      λ e. digits_from-value fuel (n / 10) ((n % 10 + b'0') ∷ tail) (omega arith) in
    let here : ltb n 10 ≡ true → (0 * 10 + ((n + b'0') - b'0')) ≡ n = λ e. omega arith in
    let there : (n / 10) * 10 + ((n % 10 + b'0') - b'0') ≡ n = omega arith in
    elim (Bool-cases (ltb n 10)) [
      | inl e ↦ rw e (ap (λ x. value x tail) (here e))
      | inr e ↦ rw e (ih (ground arith) ∙ ap (λ x. value x tail) there)
    ]

digits_from-IsDigits :
    (fuel n : ℕ) (tail : Bytes) → IsDigits tail → IsDigits (digits_from fuel n tail)
unfolding digits_from
digits_from-IsDigits zero n tail h = h
digits_from-IsDigits (suc fuel) n tail h =
    let digit : is_digit (n % 10 + b'0') ≡ true = unfold is_digit in ground arith in
    let last : ltb n 10 ≡ true → is_digit (n + b'0') ≡ true =
      λ e. unfold is_digit in ground arith in
    elim (Bool-cases (ltb n 10)) [
      | inl e ↦ rw e (last e, h)
      | inr e ↦ rw e (digits_from-IsDigits fuel (n / 10) ((n % 10 + b'0') ∷ tail) (digit, h))
    ]

-- Digits in front of a text that is not empty, or at least one.
digits_from-cons :
    (fuel n : ℕ) (tail : Bytes)
    → n < fuel
    → (c : ℕ) × (s : Bytes) × (digits_from fuel n tail ≡ c ∷ s)
unfolding digits_from
digits_from-cons zero n tail h = absurd (omega arith)
digits_from-cons (suc fuel) n tail h = elim (Bool-cases (ltb n 10)) [
  | inl e ↦ (n + b'0', tail, rw e refl)
  | inr e ↦
      let (c, s, spelled) =
        digits_from-cons fuel (n / 10) ((n % 10 + b'0') ∷ tail) (ground arith) in
      (c, s, rw e spelled)
]

pub decimal-value : (n : ℕ) → value 0 (decimal n) ≡ n
unfolding decimal
decimal-value n = digits_from-value (suc n) n [] (omega arith)

pub decimal-cons : (n : ℕ) → (c : ℕ) × (s : Bytes) × (decimal n ≡ c ∷ s)
unfolding decimal
decimal-cons n = digits_from-cons (suc n) n [] (omega arith)

pub decimal-IsDigits : (n : ℕ) → IsDigits (decimal n)
unfolding decimal
decimal-IsDigits n = digits_from-IsDigits (suc n) n [] tt

-- The decimal text that is written for a length is read back by the parser of Content-Length as that
-- length, when it is within the parser's limit, and is refused as too large otherwise.
pub parse_length-decimal :
    (max n : ℕ) (blanks rest : Bytes)
    → max + 10 < 2 ^ 64
    → All (λ x. is_blank x ≡ true) blanks
    → at_line_end rest ≡ true
    → parse_length max (blanks ++ (decimal n ++ rest))
      ≡ (if leb n max then length_is n else failed too_large)
unfolding decimal
parse_length-decimal max n blanks rest small hb he =
    let (c, s, spelled) = digits_from-cons (suc n) n [] (omega arith) in
    let digits : IsDigits (c ∷ s) = subst IsDigits spelled (decimal-IsDigits n) in
    let same : value 0 (c ∷ s) ≡ n = ap (value 0) (sym spelled) ∙ decimal-value n in
    rw spelled (
      parse_length_lem max c blanks s rest small hb digits he
      ∙ ap (λ x. if leb x max then length_is x else failed too_large) same)
