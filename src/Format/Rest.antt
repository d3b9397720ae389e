-- ===== src/Format/Rest.antt =====
-- src/mnet_response.c, `mnet_jsonfv`: how much of a format a directive passes.
use mnet.Base.{
  ℕ, ◌≤◌, ◌<◌, ◌+◌, ◌-◌, ◌*◌, [], ◌∷◌, Option, none, some, inl, inr, arith, ◌==◌, ◌||◌, ◌>>=◌,
  Bytes, length, Bool-cases,
}
use mnet.Client.{digits_value}
use mnet.Format.{
  Directive, percent, lone, star, unended, cut, string, char, number, is_conversion,
  scan_conversion, collected, general, behind_dot, directive,
}

-- The format behind a directive has at most n bytes.
abbrev pub Leaves : ℕ → Directive → Type 0
Leaves n (percent f) = length f ≤ n
Leaves n lone = Unit
Leaves n star = Unit
Leaves n unended = Unit
Leaves n (cut k f) = length f ≤ n
Leaves n (string f) = length f ≤ n
Leaves n (char f) = length f ≤ n
Leaves n (number body conv f) = length f ≤ n

digits_value-le : (n : ℕ) (s : Bytes) → length (digits_value n s).1 ≤ length s
unfolding digits_value
digits_value-le n [] = omega arith
digits_value-le n (c ∷ s) = ground (arith, digits_value-le (n * 10 + (c - b'0')) s)

scan-Leaves : (n : ℕ) (s : Bytes) → length s ≤ n → Leaves n (collected (scan_conversion s))
unfolding collected scan_conversion
scan-Leaves n [] h = tt
scan-Leaves n (c ∷ s) h = elim (Bool-cases (c == b'%' || is_conversion c)) [
  | inl e ↦ rw e (omega arith)
  | inr e ↦ rw e (later (scan_conversion s) (scan-Leaves n s (omega arith)))
]
  where
    later :
        (found : Option (Bytes × ℕ × Bytes))
        → Leaves n (collected found)
        → Leaves n (collected (found >>= λ r. some (c ∷ r.0, r.1, r.2)))
    later none l = tt
    later (some (body, conv, rest)) l = l

general-Leaves : (n c : ℕ) (f : Bytes) → length f < n → Leaves n (general c f)
unfolding general
general-Leaves n c f h = ground (arith, scan-Leaves n (c ∷ f) (omega arith))

behind_dot-Leaves :
    (n : ℕ) (f : Bytes) (found : ℕ × Bytes)
    → length f < n
    → length found.1 < n
    → Leaves n (behind_dot f found)
unfolding behind_dot
behind_dot-Leaves n f (k, []) h l = general-Leaves n b'.' f h
behind_dot-Leaves n f (k, c ∷ rest) h l = ground (arith, general-Leaves n b'.' f h)

pub directive-Leaves : (f : Bytes) → Leaves (length f) (directive f)
unfolding directive
directive-Leaves [] = tt
directive-Leaves (c ∷ f) = ground (
  arith,
  behind_dot-Leaves (length (c ∷ f)) f (digits_value 0 f) (omega arith)
      (omega (arith, digits_value-le 0 f)),
  general-Leaves (length (c ∷ f)) c f (omega arith),
)
