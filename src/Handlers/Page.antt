-- ===== src/Handlers/Page.antt =====
-- The welcome page is never cut.
use mnet.Base.{
  ℕ, zero, suc, ◌+◌, ◌-◌, ◌*◌, ◌/◌, ◌%◌, ◌^◌, ◌≤◌, ◌<◌, ◌≡◌, ap, Bool, true, false, List, [], ◌∷◌,
  Option, none, some, arith, ltb, ◌==◌, Bytes, codes, length, take, drop, length-take, starts_with,
  cut_at, skip_while, length-append, take-of_le, Bool-cases, inl, inr,
}
use mnet.App.{ℤ, pos, negsuc, App, digits_from, decimal}
use mnet.Parse.Text.{is_blank}
use mnet.Handlers.{text_response}
use mnet.Handlers.Welcome.{
  welcome_html, decimal_int, fill_step, fill, blanks, field_12, commit_of, true_or_false,
  https_state, welcome_arguments, welcome_size, welcome_response,
}

abbrev total : List Bytes → ℕ
total [] = 0
total (a ∷ args) = length a + total args

fill_step-le :
    (inside : Bool) (c : ℕ) (args : List Bytes)
    → length (fill_step inside c args).0 + total (fill_step inside c args).2 ≤ 1 + total args
unfolding fill_step
fill_step-le true c args = omega arith
fill_step-le false c [] = omega arith
fill_step-le false c (a ∷ args) = elim (Bool-cases (c == b'%')) [
  | inl e ↦ rw e (omega arith)
  | inr e ↦ rw e (omega arith)
]

fill-le :
    (inside : Bool) (s : Bytes) (args : List Bytes)
    → length (fill inside s args) ≤ length s + total args
unfolding fill
fill-le inside [] args = omega arith
fill-le inside (c ∷ s) args = omega (
  arith,
  length-append (fill_step inside c args).0
      (fill (fill_step inside c args).1 s (fill_step inside c args).2),
  fill-le (fill_step inside c args).1 s (fill_step inside c args).2,
  fill_step-le inside c args,
)

abbrev ten_to : ℕ → ℕ
ten_to zero = 1
ten_to (suc k) = 10 * ten_to k

digits_from-le :
    (k fuel n : ℕ) (tail : Bytes)
    → n < ten_to k
    → 0 < k
    → length (digits_from fuel n tail) ≤ k + length tail
unfolding digits_from
digits_from-le zero fuel n tail h p = absurd (omega arith)
digits_from-le (suc k) zero n tail h p = omega arith
digits_from-le (suc zero) (suc fuel) n tail h p =
    let small : ltb n 10 ≡ true = ground arith in rw small (omega arith)
digits_from-le (suc (suc k)) (suc fuel) n tail h p = elim (Bool-cases (ltb n 10)) [
  | inl e ↦ rw e (omega arith)
  | inr e ↦ rw e (
      omega (
        arith,
        digits_from-le (suc k) fuel (n / 10) ((n % 10 + b'0') ∷ tail) (omega arith) (omega arith),
      ))
]

decimal-le : (n : ℕ) → n < 2 ^ 64 → length (decimal n) ≤ 20
unfolding decimal
decimal-le n h = omega (arith, digits_from-le 20 (suc n) n [] (omega arith) (omega arith))

-- An int.
abbrev pub IsInt : ℤ → Type 0
IsInt (pos n) = n < 2 ^ 31
IsInt (negsuc n) = n < 2 ^ 31

decimal_int-le : (n : ℤ) → IsInt n → length (decimal_int n) ≤ 21
unfolding decimal_int
decimal_int-le (pos n) h = omega (arith, decimal-le n (omega arith))
decimal_int-le (negsuc n) h = omega (arith, decimal-le (suc n) (omega arith))

true_or_false-le : (b : Bool) → length (true_or_false b) ≤ 5
unfolding true_or_false
true_or_false-le true = omega arith
true_or_false-le false = omega arith

https_state-le : (b : Bool) → length (https_state b) ≤ 5
unfolding https_state
https_state-le true = omega arith
https_state-le false = omega arith

length-blanks : (n : ℕ) (s : Bytes) → length (blanks n s) ≡ n + length s
unfolding blanks
length-blanks zero s = omega arith
length-blanks (suc n) s = omega (arith, length-blanks n s)

commit_of-le : (line : Option Bytes) → length (commit_of line) ≤ 12
unfolding commit_of
commit_of-le none = omega arith
commit_of-le (some line) =
    elim (Bool-cases (starts_with (codes "ref:") (cut_at 10 (take 255 line)).0)) [
      | inl e ↦ rw e (
          omega
            (arith, length-take 12 (skip_while is_blank (drop 4 (cut_at 10 (take 255 line)).0))))
      | inr e ↦ rw e (omega (arith, length-take 12 (cut_at 10 (take 255 line)).0))
    ]

length-field_12 : (line : Option Bytes) → length (field_12 (commit_of line)) ≡ 12
unfolding field_12
length-field_12 line =
    omega (arith, length-blanks (12 - length (commit_of line)) (commit_of line), commit_of-le line)

module _ {H M : Type 0} where
  -- The fields have the values of their C types.
  pub record IsRanged (app : App H M) : Type 0 where
    pub workers : app.workers < 2 ^ 31
    pub max_connections : IsInt app.max_connections
    pub timeout : IsInt app.timeout_seconds
    pub keep_alive : IsInt app.keep_alive_timeout
    pub max_body : app.max_body_size < 2 ^ 64
    pub routes : length app.routes < 2 ^ 64

  arguments-le :
      (app : App H M) (port : ℕ) (time : Bytes) (line : Option Bytes)
      → IsRanged app
      → port < 2 ^ 16
      → length time < 64
      → total (welcome_arguments app port time line) < 512
  unfolding welcome_arguments
  arguments-le app port time line r p t = omega (
    arith,
    t,
    true_or_false-le app.dev,
    https_state-le app.https,
    decimal-le port (omega arith),
    true_or_false-le app.debug,
    decimal-le app.workers (omega (arith, r.workers)),
    decimal_int-le app.max_connections r.max_connections,
    decimal_int-le app.timeout_seconds r.timeout,
    decimal_int-le app.keep_alive_timeout r.keep_alive,
    decimal-le app.max_body_size r.max_body,
    decimal-le (length app.routes) r.routes,
    length-field_12 line,
  )

  -- With fields in the ranges of their types and a time that fits time_str[64], the 512 bytes that are
  -- added to the length of the template are enough: the welcome page is never cut.
  pub welcome_response-whole :
      (app : App H M) (port : ℕ) (time : Bytes) (line : Option Bytes)
      → IsRanged app
      → port < 2 ^ 16
      → length time < 64
      → welcome_response true app port time line
        ≡ text_response 200
            (codes "text/html")
            (fill false welcome_html (welcome_arguments app port time line))
  unfolding welcome_response welcome_size
  welcome_response-whole app port time line r p t = ap (text_response 200 (codes "text/html")) (
      take-of_le _ _ (
        omega (
          arith,
          fill-le false welcome_html (welcome_arguments app port time line),
          arguments-le app port time line r p t,
        )))
