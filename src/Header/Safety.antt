-- ===== src/Header/Safety.antt =====
-- What a validated header name or value can hold.
use mnet.Base.{ℕ, ◌≤◌, ◌≡◌, ◌≢◌, ◌↔◌, ◌⊎◌, refl, true, [], ◌∷◌, some, arith, Bytes, All}
use mnet.Header.{value_loop, is_token, name_loop, name_valid}

-- A byte that may stand in a header value.
abbrev pub IsPrintable : ℕ → Type 0
IsPrintable c = (0x20 ≤ c) × (c ≢ 0x7f)

-- A header value is accepted exactly when it holds no control byte: no CR, LF, NUL or DEL.
pub value_loop_iff : (s : Bytes) → (value_loop s ≡ true) ↔ All IsPrintable s
unfolding value_loop
value_loop_iff [] = (λ _. tt, λ _. refl)
value_loop_iff (c ∷ s) = ground (arith, value_loop_iff s)

-- RFC 7230: tchar is a letter, a digit or one of 15 marks; none is a control, a space or a
-- separator.
abbrev pub IsSeparator : ℕ → Type 0
IsSeparator c =
    (c ≤ 0x20)
    ⊎ (0x7f ≤ c)
    ⊎ (c ≡ b':')
    ⊎ (c ≡ b'(')
    ⊎ (c ≡ b')')
    ⊎ (c ≡ b'"')
    ⊎ (c ≡ b',')
    ⊎ (c ≡ b';')
    ⊎ (c ≡ b'=')

not_IsSeparator : (c : ℕ) → is_token c ≡ true → ¬ IsSeparator c
unfolding is_token
not_IsSeparator c h = ground arith

name_loop-All : (s : Bytes) → name_loop s ≡ true → All (λ c. ¬ IsSeparator c) s
name_loop-All [] h = tt
name_loop-All (c ∷ s) h = (
  not_IsSeparator c (unfold name_loop in ground arith),
  name_loop-All s (unfold name_loop in ground arith),
)

-- A header name that is accepted is not empty and holds no control, space, separator, DEL or
-- byte beyond ASCII.
pub name_valid_sound :
    (s : Bytes) → name_valid (some s) ≡ true → (s ≢ []) × All (λ c. ¬ IsSeparator c) s
unfolding name_valid
name_valid_sound [] h = absurd (cc)
name_valid_sound (c ∷ s) h = (cc, name_loop-All (c ∷ s) h)
