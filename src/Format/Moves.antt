-- ===== src/Format/Moves.antt =====
-- src/mnet_response.c, `mnet_jsonfv`: what a round does to the buffer and to the format.
use mnet.Base.{
  ℕ, ◌+◌, ◌*◌, ◌<◌, ◌++◌, ◌≡◌, refl, Bool, List, [], ◌∷◌, Option, none, some, ◌⊎◌, inl, inr, ◌&&◌,
  not, ltb, leb, ◌^◌, Bytes, length, Bool-cases,
}
use mnet.Format.Buffer.{Buffer, Growth, put_text, Puts, puts, fails, put_text-Puts, IsRoomy}
use mnet.App.{ℤ}
use mnet.Format.Spec.{
  Verdict, skipped, refused, overrun, as_signed, as_unsigned, as_double, as_long_double, to_signed,
  to_unsigned,
}
use mnet.Format.Loop.{
  Arg, text, integer, double, long_double, failed, undefined, Round, stop, go, continued, write,
  write_escaped, string_step, write_cut, cut_step, char_step, append_value, value_step,
  integer_step, double_step, long_double_step, spelled, number_step,
}

-- A round behind a directive that leaves f: it ends the loop by a failure or by undefined behaviour, or
-- goes on at f, with the buffer as it was or with one text put behind it and room for the NUL.
abbrev pub Moves : {R : Type 0} → Buffer → Bytes → Round R → Type 0
Moves b f (stop o) = (o ≡ failed) ⊎ (o ≡ undefined)
Moves b f (go b' f' args) =
    (f' ≡ f) × ((b' ≡ b) ⊎ ((w : Bytes) × (b'.text ≡ b.text ++ w) × IsRoomy b'))

module _ {R : Type 0} (memory : ℕ → Bool) (print_int : Bytes → ℤ → Option Bytes)
    (print_real : Bytes → R → Option Bytes) (b : Buffer) (positive : 0 < b.capacity)
    (f : Bytes) where
  write-Moves :
      (args : List (Arg R)) (w : Bytes) → Moves b f (write memory print_int print_real b f args w)
  unfolding write continued
  write-Moves args w = by_room (put_text memory b w) (put_text-Puts memory b w positive)
    where
      by_room : (g : Growth Buffer) → Puts memory b w g → Moves b f (continued f args g)
      by_room g (puts b' e room) = (refl, inr (w, e, room))
      by_room g fails = inl refl

  escaped-Moves :
      (args : List (Arg R)) (s : Bytes)
      → Moves b f (write_escaped memory print_int print_real b f args s)
  unfolding write_escaped
  escaped-Moves args s = elim (Bool-cases (memory (length s * 6 + 1))) [
    | inl e ↦ rw e (write-Moves args _)
    | inr e ↦ rw e (inl refl)
  ]

  pub string-Moves :
      (args : List (Arg R)) → Moves b f (string_step memory print_int print_real b f args)
  unfolding string_step
  string-Moves [] = inr refl
  string-Moves (text s ∷ args) = escaped-Moves args _
  string-Moves (integer v ∷ args) = inr refl
  string-Moves (double v ∷ args) = inr refl
  string-Moves (long_double v ∷ args) = inr refl

  write_cut-Moves :
      (args : List (Arg R)) (s : Bytes)
      → Moves b f (write_cut memory print_int print_real b f args s)
  unfolding write_cut
  write_cut-Moves args s =
      elim (Bool-cases (memory (length s * 6 + 1) && not (memory (length s + 1)))) [
        | inl e ↦ rw e (inl refl)
        | inr e ↦ rw e (escaped-Moves args s)
      ]

  pub cut-Moves :
      (k : ℕ) (args : List (Arg R)) → Moves b f (cut_step memory print_int print_real k b f args)
  unfolding cut_step
  cut-Moves k [] = inr refl
  cut-Moves k (text s ∷ args) = elim (Bool-cases (leb (2 ^ 31) k)) [
    | inl e ↦ rw e (inr refl)
    | inr e ↦ rw e (write_cut-Moves args _)
  ]
  cut-Moves k (integer v ∷ args) = inr refl
  cut-Moves k (double v ∷ args) = inr refl
  cut-Moves k (long_double v ∷ args) = inr refl

  pub char-Moves :
      (args : List (Arg R)) → Moves b f (char_step memory print_int print_real b f args)
  unfolding char_step
  char-Moves [] = inr refl
  char-Moves (text s ∷ args) = inr refl
  char-Moves (integer v ∷ args) = write-Moves args _
  char-Moves (double v ∷ args) = inr refl
  char-Moves (long_double v ∷ args) = inr refl

  append-Moves :
      (args : List (Arg R)) (w : Bytes)
      → Moves b f (append_value memory print_int print_real b f args w)
  unfolding append_value
  append-Moves args [] = (refl, inl refl)
  append-Moves args (c ∷ w) = write-Moves args (c ∷ w)

  value-Moves :
      (fix : Bytes → Bytes) (args : List (Arg R)) (w : Option Bytes)
      → Moves b f (value_step memory print_int print_real fix b f args w)
  unfolding value_step
  value-Moves fix args none = (refl, inl refl)
  value-Moves fix args (some w) =
      elim (Bool-cases (ltb 64 (length w + 1) && not (memory (length w + 1)))) [
        | inl e ↦ rw e (inl refl)
        | inr e ↦ rw e (append-Moves args (fix w))
      ]

  integer-Moves :
      (read : ℤ → ℤ) (spec : Bytes) (args : List (Arg R))
      → Moves b f (integer_step memory print_int print_real read spec b f args)
  unfolding integer_step
  integer-Moves read spec [] = inr refl
  integer-Moves read spec (text s ∷ args) = inr refl
  integer-Moves read spec (integer v ∷ args) = value-Moves _ args _
  integer-Moves read spec (double v ∷ args) = inr refl
  integer-Moves read spec (long_double v ∷ args) = inr refl

  double-Moves :
      (spec : Bytes) (args : List (Arg R))
      → Moves b f (double_step memory print_int print_real spec b f args)
  unfolding double_step
  double-Moves spec [] = inr refl
  double-Moves spec (text s ∷ args) = inr refl
  double-Moves spec (integer v ∷ args) = inr refl
  double-Moves spec (double v ∷ args) = value-Moves _ args _
  double-Moves spec (long_double v ∷ args) = inr refl

  long_double-Moves :
      (spec : Bytes) (args : List (Arg R))
      → Moves b f (long_double_step memory print_int print_real spec b f args)
  unfolding long_double_step
  long_double-Moves spec [] = inr refl
  long_double-Moves spec (text s ∷ args) = inr refl
  long_double-Moves spec (integer v ∷ args) = inr refl
  long_double-Moves spec (double v ∷ args) = inr refl
  long_double-Moves spec (long_double v ∷ args) = value-Moves _ args _

  spelled-Moves :
      (spec : Bytes) (s : Round R)
      → Moves b f s
      → Moves b f (spelled memory print_int print_real spec s)
  unfolding spelled
  spelled-Moves spec s m = elim (Bool-cases (leb 64 (length spec + 1))) [
    | inl e ↦ rw e (inr refl)
    | inr e ↦ rw e m
  ]

  pub number-Moves :
      (v : Verdict) (args : List (Arg R))
      → Moves b f (number_step memory print_int print_real v b f args)
  unfolding number_step
  number-Moves skipped args = (refl, inl refl)
  number-Moves refused args = inl refl
  number-Moves overrun args = inr refl
  number-Moves (as_signed w spec) args =
      spelled-Moves spec _ (integer-Moves (to_signed w) spec args)
  number-Moves (as_unsigned w spec) args =
      spelled-Moves spec _ (integer-Moves (to_unsigned w) spec args)
  number-Moves (as_double spec) args = double-Moves spec args
  number-Moves (as_long_double spec) args = spelled-Moves spec _ (long_double-Moves spec args)
