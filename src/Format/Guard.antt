-- ===== src/Format/Guard.antt =====
-- src/mnet_response.c, `mnet_jsonfv`: what reaches snprintf, and the end of the block it is spelled in.
use mnet.Base.{
  ℕ, ◌+◌, ◌<◌, ◌≤◌, ◌^◌, ◌≡◌, refl, inl, inr, ◌⊎◌, true, false, [], ◌∷◌, ◌++◌, arith, ltb, leb,
  if◌then◌else◌, Bytes, codes, length, length-append, All, Bool-cases,
}
use mnet.Header.{has}
use mnet.Client.{digits_value}
use mnet.Format.Spec.{
  is_numeric, is_float, is_signed, bad_char, any_bad, rejected, without, integer_spec, long_spec,
  Verdict, overrun, as_signed, as_unsigned, as_double, as_long_double, real_verdict,
  integer_verdict, width_verdict, verdict, skipped, refused, argument_width,
}

-- What a specifier that reaches snprintf is free of, at its bytes as they stand in the format.
pub record IsAccepted (body : Bytes) (conv : ℕ) : Type 0 where
  pub short : length body + 2 < 64
  -- no conversion that stores through an argument, prints a pointer or a hexadecimal float
  pub conversion : has (codes "npa") conv ≡ false
  pub harmless : All (λ c. has (codes "npa") c ≡ false) body
  -- flags, width, precision and length modifiers stand before conversions of numbers only
  pub bare :
      (is_numeric conv ≡ true) ⊎ All (λ c. has (codes "0123456789+-# *.lhzjtL") c ≡ false) body
  pub narrow : (digits_value 0 body).0 ≤ 4096

-- What snprintf gets for an integer: the flags, width and precision, then the modifier ll and no other.
pub record IsInteger (body : Bytes) (conv : ℕ) (spec : Bytes) : Type 0 where
  pub accepted : IsAccepted body conv
  pub flags : Bytes
  pub spelled_so : spec ≡ flags ++ b'l' ∷ b'l' ∷ conv ∷ []
  pub no_modifier : All (λ c. has (codes "lhzjt") c ≡ false) flags
  pub no_longer : length flags ≤ length body

-- And for a long double: no L but the one in front of the conversion, and it fits in its block with its '%'
-- and its NUL.
pub record IsLong (body : Bytes) (conv : ℕ) (spec : Bytes) : Type 0 where
  pub accepted : IsAccepted body conv
  pub flags : Bytes
  pub spelled_so : spec ≡ flags ++ b'L' ∷ conv ∷ []
  pub no_modifier : All (λ c. has (codes "L") c ≡ false) flags
  pub fits : length spec + 2 ≤ 64

-- What stands behind each verdict: what snprintf gets, or why nothing gets there.
abbrev pub Passed : Bytes → ℕ → Verdict → Type 0
Passed body conv (as_signed w spec) = IsInteger body conv spec × (is_signed conv ≡ true)
Passed body conv (as_unsigned w spec) = IsInteger body conv spec × (is_signed conv ≡ false)
Passed body conv (as_double spec) =
    IsAccepted body conv
    × (has body b'L' ≡ false)
    × (spec ≡ body ++ conv ∷ [])
    × (length spec + 2 ≤ 64)
Passed body conv (as_long_double spec) = IsLong body conv spec × (has body b'L' ≡ true)
Passed body conv skipped = 62 ≤ length body
Passed body conv refused = (rejected body conv ≡ true) ⊎ (4096 < (digits_value 0 body).0)
Passed body conv overrun = 2 ^ 63 ≤ (digits_value 0 body).0

without-clean : (dropped s : Bytes) → All (λ c. has dropped c ≡ false) (without dropped s)
unfolding without
without-clean dropped [] = tt
without-clean dropped (c ∷ s) = elim (Bool-cases (has dropped c)) [
  | inl e ↦ rw e (without-clean dropped s)
  | inr e ↦ rw e (e, without-clean dropped s)
]

length-without : (dropped s : Bytes) → length (without dropped s) ≤ length s
unfolding without
length-without dropped [] = omega arith
length-without dropped (c ∷ s) = elim (Bool-cases (has dropped c)) [
  | inl e ↦ rw e (omega (arith, length-without dropped s))
  | inr e ↦ rw e (omega (arith, length-without dropped s))
]

-- Where an L is dropped, the specifier is shorter.
length-without-lt : (s : Bytes) → has s b'L' ≡ true → length (without (codes "L") s) + 1 ≤ length s
unfolding without has
length-without-lt [] h = absurd (ground arith)
length-without-lt (c ∷ s) h = ground (arith, length-without (codes "L") s, length-without-lt s)

any_bad-append : (conv : ℕ) (s t : Bytes) → any_bad conv (s ++ t) ≡ false → any_bad conv s ≡ false
unfolding any_bad
any_bad-append conv [] t h = refl
any_bad-append conv (c ∷ s) t h = ground (arith, any_bad-append conv s t)

bad_char-harmless : (conv c : ℕ) → bad_char conv c ≡ false → has (codes "npa") c ≡ false
unfolding bad_char
bad_char-harmless conv c h = ground arith

bad_char-bare :
    (conv c : ℕ)
    → bad_char conv c ≡ false
    → is_numeric conv ≡ false
    → has (codes "0123456789+-# *.lhzjtL") c ≡ false
unfolding bad_char has
bad_char-bare conv c h n = ground arith

any_bad-harmless :
    (conv : ℕ) (s : Bytes) → any_bad conv s ≡ false → All (λ c. has (codes "npa") c ≡ false) s
unfolding any_bad
any_bad-harmless conv [] h = tt
any_bad-harmless conv (c ∷ s) h =
    (bad_char-harmless conv c (ground arith), any_bad-harmless conv s (ground arith))

any_bad-bare :
    (conv : ℕ) (s : Bytes)
    → is_numeric conv ≡ false
    → any_bad conv s ≡ false
    → All (λ c. has (codes "0123456789+-# *.lhzjtL") c ≡ false) s
unfolding any_bad
any_bad-bare conv [] n h = tt
any_bad-bare conv (c ∷ s) n h =
    (bad_char-bare conv c (ground arith) n, any_bad-bare conv s n (ground arith))

accepted :
    (body : Bytes) (conv : ℕ)
    → leb 64 (length body + 2) ≡ false
    → rejected body conv ≡ false
    → ltb 4096 (digits_value 0 body).0 ≡ false
    → IsAccepted body conv
unfolding rejected
accepted body conv s r w =
    let ok = any_bad-append conv body (conv ∷ []) (ground arith) in
    record {
      short = ground arith;
      conversion = ground arith;
      harmless = any_bad-harmless conv body ok;
      bare = elim (Bool-cases (is_numeric conv)) [
        | inl e ↦ inl e
        | inr e ↦ inr (any_bad-bare conv body e ok)
      ];
      narrow = ground arith;
    }

integer-Passed :
    (body : Bytes) (conv : ℕ) → IsAccepted body conv → Passed body conv (integer_verdict body conv)
unfolding integer_verdict
integer-Passed body conv a = elim (Bool-cases (is_signed conv)) [
  | inl e ↦ rw e (is, e)
  | inr e ↦ rw e (is, e)
]
  where
    is : IsInteger body conv (integer_spec body conv)
    is = record {
      accepted = a;
      flags = without (codes "lhzjt") body;
      spelled_so = unfold integer_spec in refl;
      no_modifier = without-clean (codes "lhzjt") body;
      no_longer = length-without (codes "lhzjt") body;
    }

long_spec-fits :
    (body : Bytes) (conv : ℕ)
    → has body b'L' ≡ true
    → length body + 2 < 64
    → length (long_spec body conv) + 2 ≤ 64
unfolding long_spec
long_spec-fits body conv h short =
    omega
      (arith, length-append (without (codes "L") body) (b'L' ∷ conv ∷ []), length-without-lt body h)

real-Passed :
    (body : Bytes) (conv : ℕ) → IsAccepted body conv → Passed body conv (real_verdict body conv)
unfolding real_verdict
real-Passed body conv a = elim (Bool-cases (has body b'L')) [
  | inl e ↦ rw e (
    record {
      accepted = a;
      flags = without (codes "L") body;
      spelled_so = unfold long_spec in refl;
      no_modifier = without-clean (codes "L") body;
      fits = long_spec-fits body conv e a.short;
    },
    e,
  )
  | inr e ↦ rw e (a, e, refl, omega (arith, a.short, length-append body (conv ∷ [])))
]

width-Passed :
    (body : Bytes) (conv : ℕ)
    → leb 64 (length body + 2) ≡ false
    → rejected body conv ≡ false
    → Passed body conv (
        width_verdict
          (digits_value 0 body).0
          (if is_float conv then real_verdict body conv else integer_verdict body conv))
unfolding width_verdict
width-Passed body conv short clean = elim (Bool-cases (leb (2 ^ 63) (digits_value 0 body).0)) [
  | inl e ↦ rw e (ground arith)
  | inr small ↦ rw small (elim (Bool-cases (ltb 4096 (digits_value 0 body).0)) [
    | inl e ↦ rw e (inr (ground arith))
    | inr narrow ↦ rw narrow (
        let a = accepted body conv short clean narrow in
        elim (Bool-cases (is_float conv)) [
          | inl e ↦ rw e (real-Passed body conv a)
          | inr e ↦ rw e (integer-Passed body conv a)
        ])
  ])
]

-- Only accepted specifiers reach snprintf: shorter than 64 bytes, with no n, p or a in them, with flags,
-- width, precision and length modifiers before conversions of numbers only, and with a leading width
-- up to 4096. One of a double is passed as it stands, one of a long double with one L in front of the
-- conversion, and both fit in their block of 64 bytes with the '%' and the NUL; one of an integer is passed
-- with ll as its only modifier, by itself at most three bytes longer than what stood between the '%' and
-- the conversion. A specifier of 64 bytes or more is skipped, one that is refused is not accepted, and
-- only a width from 2 ^ 63 on overflows.
pub verdict-Passed : (body : Bytes) (conv : ℕ) → Passed body conv (verdict body conv)
unfolding verdict
verdict-Passed body conv = elim (Bool-cases (leb 64 (length body + 2))) [
  | inl e ↦ rw e (ground arith)
  | inr short ↦ rw short (elim (Bool-cases (rejected body conv)) [
    | inl e ↦ rw e (inl e)
    | inr clean ↦ rw clean (width-Passed body conv short clean)
  ])
]

-- Flags, a width and a precision.
abbrev pub IsPlain : Bytes → Type 0
IsPlain = All (λ c. has (codes "+-# .0123456789") c ≡ true)

plain-no_modifier : (c : ℕ) → has (codes "+-# .0123456789") c ≡ true → has (codes "lhzjt") c ≡ false
unfolding has
plain-no_modifier c h = ground arith

plain-good :
    (conv c : ℕ)
    → is_numeric conv ≡ true
    → has (codes "+-# .0123456789") c ≡ true
    → bad_char conv c ≡ false
unfolding bad_char has
plain-good conv c n h = ground arith

integer_conv :
    (conv : ℕ)
    → has (codes "diouxX") conv ≡ true
    → (is_numeric conv ≡ true) × (is_float conv ≡ false) × (has (codes "npa") conv ≡ false)
unfolding is_numeric is_float has
integer_conv conv h = (ground arith, ground arith, ground arith)

plain-any_bad :
    (conv : ℕ) (s : Bytes)
    → is_numeric conv ≡ true
    → has (codes "npa") conv ≡ false
    → IsPlain s
    → any_bad conv (s ++ conv ∷ []) ≡ false
unfolding any_bad bad_char
plain-any_bad conv [] n ok h = ground arith
plain-any_bad conv (c ∷ s) n ok h =
    ground (arith, plain-good conv c n h.0, plain-any_bad conv s n ok h.1)

without-none : (s : Bytes) → IsPlain s → without (codes "lhzjt") s ≡ s
unfolding without
without-none [] h = refl
without-none (c ∷ s) h = rw (plain-no_modifier c h.0, without-none s h.1) refl

-- A specifier of an integer whose flags, width and precision are 60 or 61 bytes, with a leading width up to
-- 4096, passes every test, but with its '%' and its NUL what is passed on is longer than the block of 64
-- bytes that it is written to, because of the "ll" that is put in.
pub verdict-overrun :
    (body : Bytes) (conv : ℕ)
    → has (codes "diouxX") conv ≡ true
    → IsPlain body
    → 60 ≤ length body
    → length body ≤ 61
    → (digits_value 0 body).0 ≤ 4096
    → (w : ℕ) × (spec : Bytes) × ((verdict body conv ≡ as_signed w spec)
        ⊎ (verdict body conv ≡ as_unsigned w spec))
      × (64 < length spec + 2)
unfolding verdict width_verdict rejected
verdict-overrun body conv integer plain long short narrow =
    let (numeric, no_float, no_npa) = integer_conv conv integer in
    let clean = plain-any_bad conv body numeric no_npa plain in
    let fits : leb 64 (length body + 2) ≡ false = ground arith in
    let small : leb (2 ^ 63) (digits_value 0 body).0 ≡ false = ground arith in
    let narrow' : ltb 4096 (digits_value 0 body).0 ≡ false = ground arith in
    (
      argument_width body,
      integer_spec body conv,
      rw (fits, clean, no_npa, small, narrow', no_float) (either body conv),
      longer body conv plain long,
    )
  where
    either :
        (body : Bytes) (conv : ℕ)
        → (integer_verdict body conv ≡ as_signed (argument_width body) (integer_spec body conv))
          ⊎ (integer_verdict body conv ≡ as_unsigned (argument_width body) (integer_spec body conv))
    either body conv =
        unfold integer_verdict in
        elim (Bool-cases (is_signed conv)) [ inl e ↦ inl (rw e refl) | inr e ↦ inr (rw e refl) ]

    longer :
        (body : Bytes) (conv : ℕ)
        → IsPlain body
        → 60 ≤ length body
        → 64 < length (integer_spec body conv) + 2
    longer body conv plain long =
        unfold integer_spec in
        rw (without-none body plain) (omega (arith, length-append body (b'l' ∷ b'l' ∷ conv ∷ [])))
