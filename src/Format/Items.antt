-- ===== src/Format/Items.antt =====
-- src/mnet_response.c, `mnet_jsonfv`: formats as lists of items, and what each item stands for.
use mnet.Base.{
  ℕ, ◌+◌, ◌<◌, ◌≤◌, ◌^◌, ◌≡◌, ◌≢◌, Bool, true, false, not, ◌&&◌, ◌||◌, List, [], ◌∷◌, ◌++◌, Option,
  none, some, ◌==◌, Bytes, codes, length, take, All,
}
use mnet.Header.{has}
use mnet.App.{decimal}
use mnet.Client.{digits_value}
use mnet.Json.Bounds.{escaped}
use mnet.Format.{is_conversion}
use mnet.Format.Cut.{cut_length}
use mnet.App.{ℤ}
use mnet.Format.Spec.{
  to_signed, to_unsigned, Verdict, as_signed, as_unsigned, as_double, as_long_double, verdict,
}
use mnet.Format.Loop.{Arg, text, integer, double, long_double, char_piece, or_null, or_null_text}

pub data Item (R : Type 0) : Type 0 where
  literal : ℕ → Item R
  percent_sign : Item R
  -- %s, %.Ns and %c, with their arguments
  string_item : Option Bytes → Item R
  cut_item : ℕ → Option Bytes → Item R
  char_item : ℤ → Item R
  -- the specifier's body and conversion character
  number_item : Bytes → ℕ → Arg R → Item R

-- The format that is written for an item.
abbrev pub shown : {R : Type 0} → Item R → Bytes
shown (literal c) = c ∷ []
shown percent_sign = b'%' ∷ b'%' ∷ []
shown (string_item s) = b'%' ∷ b's' ∷ []
shown (cut_item n s) = b'%' ∷ b'.' ∷ decimal n ++ b's' ∷ []
shown (char_item v) = b'%' ∷ b'c' ∷ []
shown (number_item body conv a) = b'%' ∷ body ++ conv ∷ []

abbrev pub argument : {R : Type 0} → Item R → List (Arg R)
argument (literal c) = []
argument percent_sign = []
argument (string_item s) = text s ∷ []
argument (cut_item n s) = text s ∷ []
argument (char_item v) = integer v ∷ []
argument (number_item body conv a) = a ∷ []

module _ {R : Type 0} (print_int : Bytes → ℤ → Option Bytes)
    (print_real : Bytes → R → Option Bytes) where
  abbrev pub printed : (Bytes → Bytes) → Option Bytes → Bytes
  printed fix none = []
  printed fix (some w) = fix w

  abbrev pub number_text : Verdict → Arg R → Bytes
  number_text (as_signed w spec) (integer v) = printed (λ t. t) (print_int spec (to_signed w v))
  number_text (as_unsigned w spec) (integer v) = printed (λ t. t) (print_int spec (to_unsigned w v))
  number_text (as_double spec) (double v) = printed or_null (print_real spec v)
  number_text (as_long_double spec) (long_double v) = printed or_null (print_real spec v)
  number_text v a = []

  -- The text that an item stands for.
  abbrev pub rendered : Item R → Bytes
  rendered (literal c) = c ∷ []
  rendered percent_sign = b'%' ∷ []
  rendered (string_item s) = escaped (or_null_text s)
  rendered (cut_item n s) = escaped (take (cut_length n (or_null_text s)) (or_null_text s))
  rendered (char_item v) = char_piece (to_signed 32 v)
  rendered (number_item body conv a) = number_text (verdict body conv) a

  abbrev pub render : List (Item R) → Bytes
  render [] = []
  render (i ∷ is) = rendered i ++ render is

abbrev pub show_items : {R : Type 0} → List (Item R) → Bytes
show_items [] = []
show_items (i ∷ is) = shown i ++ show_items is

abbrev pub arguments : {R : Type 0} → List (Item R) → List (Arg R)
arguments [] = []
arguments (i ∷ is) = argument i ++ arguments is

-- The argument has the type that the specifier reads, and a specifier that is rewritten fits in its block of
-- 64 bytes with its '%' and its NUL.
pub data Reads (R : Type 0) : Verdict → Arg R → Type 0 where
  signed :
      (w : ℕ) (spec : Bytes) (v : ℤ) → length spec + 2 ≤ 64 → Reads R (as_signed w spec) (integer v)
  unsigned :
      (w : ℕ) (spec : Bytes) (v : ℤ)
      → length spec + 2 ≤ 64
      → Reads R (as_unsigned w spec) (integer v)
  real : (spec : Bytes) (v : R) → Reads R (as_double spec) (double v)
  long_real :
      (spec : Bytes) (v : R) → length spec + 2 ≤ 64 → Reads R (as_long_double spec) (long_double v)

abbrev pub is_precision_string : Bytes → Bool
is_precision_string [] = true
is_precision_string (c ∷ s) = c == b's'

-- The text behind the '%' is none of the other directives.
abbrev pub starts_number : Bytes → Bool
starts_number [] = false
starts_number (c ∷ f) =
    not (has (codes "%*sc") c) && not (c == b'.' && is_precision_string (digits_value 0 f).1)

-- A specifier of a number: one conversion character, at the end.
pub record IsSpec (body : Bytes) (conv : ℕ) : Type 0 where
  pub plain : All (λ c. (c == b'%' || is_conversion c) ≡ false) body
  pub conversion : is_conversion conv ≡ true
  pub starts : starts_number (body ++ conv ∷ []) ≡ true

abbrev pub IsItem : (R : Type 0) → Item R → Type 0
IsItem R (literal c) = c ≢ b'%'
IsItem R percent_sign = Unit
IsItem R (string_item s) = Unit
IsItem R (cut_item n s) = n < 2 ^ 31
IsItem R (char_item v) = Unit
IsItem R (number_item body conv a) = IsSpec body conv × Reads R (verdict body conv) a
