-- ===== src/Format/Cut.antt =====
-- src/mnet_response.c, `mnet_jsonfv`: where `%.Ns` cuts its text, so that no UTF-8 sequence is split.
use mnet.Base.{
  ℕ, zero, suc, ◌+◌, ◌≤◌, ◌<◌, ◌≡◌, ◌⊎◌, inl, inr, refl, Bool, false, ◌&&◌, ltb, leb, if◌then◌else◌,
  arith, Bytes, length, get_or, Bool-cases, min,
}

-- (b & 0xC0) == 0x80
unfoldable pub is_continuation : ℕ → Bool
is_continuation b = leb 0x80 b && ltb b 0xC0

-- while (trunc > 0 && (s[trunc] & 0xC0) == 0x80) trunc--;
unfoldable pub back_up : Bytes → ℕ → ℕ
back_up s zero = zero
back_up s (suc n) =
    let lower = back_up s n in if is_continuation (get_or s (suc n) 0) then lower else suc n

-- The length of the sequence that b leads, and 0 when it leads none.
unfoldable pub seq_len : ℕ → ℕ
seq_len b =
    if leb 0xC0 b && ltb b 0xE0
    then 2
    else if leb 0xE0 b && ltb b 0xF0
    then 3
    else if leb 0xF0 b && ltb b 0xF8
    then 4
    else 0

-- The test of the byte at the place that is reached.
unfoldable pub settle : ℕ → ℕ → ℕ → ℕ
settle precision trunc b =
    if ltb 0 trunc && (leb 0x80 b && (ltb 0 (seq_len b) && ltb precision (trunc + seq_len b)))
    then 0
    else trunc

unfoldable pub cut_length : ℕ → Bytes → ℕ
cut_length precision s =
    if ltb precision (length s)
    then settle precision (back_up s precision) (get_or s (back_up s precision) 0)
    else length s

back_up-le : (s : Bytes) (n : ℕ) → back_up s n ≤ n
unfolding back_up
back_up-le s zero = omega arith
back_up-le s (suc n) = ground (arith, back_up-le s n)

back_up-stop :
    (s : Bytes) (n : ℕ) → (back_up s n ≡ 0) ⊎ (is_continuation (get_or s (back_up s n) 0) ≡ false)
unfolding back_up
back_up-stop s zero = inl refl
back_up-stop s (suc n) = elim (Bool-cases (is_continuation (get_or s (suc n) 0))) [
  | inl e ↦ rw e (back_up-stop s n)
  | inr e ↦ rw e (inr e)
]

back_up-stay : (s : Bytes) (n : ℕ) → is_continuation (get_or s n 0) ≡ false → back_up s n ≡ n
unfolding back_up
back_up-stay s zero h = refl
back_up-stay s (suc n) h = rw h refl

settle-cases :
    (precision trunc b : ℕ) → (settle precision trunc b ≡ 0) ⊎ (settle precision trunc b ≡ trunc)
unfolding settle
settle-cases precision trunc b = ground arith

-- What is kept.
pub record IsCut (precision : ℕ) (s : Bytes) (n : ℕ) : Type 0 where
  pub within : n ≤ min precision (length s)
  -- The first byte that is dropped does not continue a sequence, unless all are dropped.
  pub whole : (n ≡ 0) ⊎ ((n ≡ length s) ⊎ (is_continuation (get_or s n 0) ≡ false))

-- The cut of `%.Ns` is within the precision and the text, and keeps nothing, or the whole text, or
-- stops in front of a byte that does not continue a UTF-8 sequence.
pub cut_length-IsCut : (precision : ℕ) (s : Bytes) → IsCut precision s (cut_length precision s)
unfolding cut_length
cut_length-IsCut precision s = elim (Bool-cases (ltb precision (length s))) [
  | inl short ↦ rw short (
      let trunc = back_up s precision in
      let below = back_up-le s precision in
      elim (settle-cases precision trunc (get_or s trunc 0)) [
        | inl e ↦ rw e (record { within = omega arith; whole = inl refl })
        | inr e ↦
            rw e
              (record { within = ground arith; whole = ground (back_up-stop s precision, arith) })
      ])
  | inr long ↦ rw long (record { within = ground arith; whole = inr (inl refl) })
]

-- An ASCII byte at the precision: exactly the precision is kept.
pub cut_length-ascii :
    (precision : ℕ) (s : Bytes)
    → precision < length s
    → get_or s precision 0 < 0x80
    → cut_length precision s ≡ precision
unfolding cut_length settle
cut_length-ascii precision s short ascii =
    rw (back_up-stay s precision (unfold is_continuation in ground arith)) (ground arith)

-- A byte that leads a sequence at the precision: nothing at all is kept, although the text in front
-- of it fits.
pub cut_length-lead :
    (precision : ℕ) (s : Bytes)
    → precision < length s
    → 0xC0 ≤ get_or s precision 0
    → get_or s precision 0 < 0xF8
    → cut_length precision s ≡ 0
unfolding cut_length settle seq_len
cut_length-lead precision s short lead below =
    rw (back_up-stay s precision (unfold is_continuation in ground arith)) (ground arith)
