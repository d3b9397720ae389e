-- ===== src/Format/Loop.antt =====
-- src/mnet_response.c, `mnet_jsonfv`: the loop over the format, with its arguments and its buffer.
use mnet.Base.{
  ℕ, zero, suc, ◌+◌, ◌-◌, ◌*◌, ◌/◌, ◌%◌, ◌^◌, Bool, false, not, ◌&&◌, ◌||◌, List, [], ◌∷◌, ◌++◌,
  Option, none, some, ◌==◌, ltb, leb, if◌then◌else◌, Bytes, codes, length, take, find_sub,
}
use mnet.Json.{hex_digit, piece, json_escape}
use mnet.Response.{Response}
use mnet.Format.{Directive, percent, lone, star, unended, cut, string, char, number, directive}
use mnet.Format.Buffer.{Buffer, Growth, grown, no_memory, endless, make_room, put_text, put_byte}
use mnet.Format.Cut.{cut_length}
use mnet.App.{ℤ, pos, negsuc}
use mnet.Format.Spec.{
  to_signed, to_unsigned, Verdict, skipped, refused, overrun, as_signed, as_unsigned, as_double,
  as_long_double, verdict, is_present,
}

-- A variadic argument; R stands for the floating-point numbers.
pub data Arg (R : Type 0) : Type 0 where
  text : Option Bytes → Arg R
  integer : ℤ → Arg R
  double long_double : R → Arg R

pub data Result : Type 0 where
  -- the response with status 500 and the body "null"
  failed : Result
  -- C leaves the behaviour undefined: an argument is missing or of another type, a specifier
  -- is longer than its block, or see Spec
  undefined : Result
  -- out of fuel, in the loop over the format or in the growth of the buffer
  unfinished : Result
  -- the body of the response with status 200
  written : Bytes → Result

-- Where the loop goes on: the buffer, `f`, and the arguments that are left.
pub data Round (R : Type 0) : Type 0 where
  stop : Result → Round R
  go : Buffer → Bytes → List (Arg R) → Round R

-- The k low digits of a number in hexadecimal.
unfoldable pub hex_digits : ℕ → ℕ → Bytes
hex_digits zero v = []
hex_digits (suc k) v = hex_digits k (v / 16) ++ hex_digit (v % 16) ∷ []

-- What `%c` writes: the comparisons are made on the int, and a byte that is copied is its low byte. A
-- negative value is printed as an unsigned int by "\\u%04x", of which six bytes are kept.
unfoldable pub char_piece : ℤ → Bytes
char_piece (pos n) = if ltb n 256 then piece n else (n % 256) ∷ []
char_piece (negsuc n) = take 6 (b'\\' ∷ b'u' ∷ hex_digits 8 (2 ^ 32 - 1 - n % 2 ^ 32))

-- strstr for "nan", "inf", "NAN" and "INF"
unfoldable pub not_finite : Bytes → Bool
not_finite w =
    is_present (find_sub (codes "nan") w)
    || (is_present (find_sub (codes "inf") w)
        || (is_present (find_sub (codes "NAN") w) || is_present (find_sub (codes "INF") w)))

unfoldable pub or_null : Bytes → Bytes
or_null w = if not_finite w then codes "null" else w

-- `if (s == NULL) s = "(null)"`
unfoldable pub or_null_text : Option Bytes → Bytes
or_null_text none = codes "(null)"
or_null_text (some s) = s

unfoldable pub continued : {R : Type 0} → Bytes → List (Arg R) → Growth Buffer → Round R
continued f args (grown b) = go b f args
continued f args no_memory = stop failed
continued f args endless = stop unfinished

-- `memory n` says whether an allocation of n bytes succeeds. snprintf is a parameter: the text that
-- it writes for a specifier without its '%' and a value, or none when it reports an error.
module _ {R : Type 0} (memory : ℕ → Bool) (print_int : Bytes → ℤ → Option Bytes)
    (print_real : Bytes → R → Option Bytes) where
  unfoldable pub write : Buffer → Bytes → List (Arg R) → Bytes → Round R
  write b f args w = continued f args (put_text memory b w)

  -- The escape of s in a block of its own.
  unfoldable pub write_escaped : Buffer → Bytes → List (Arg R) → Bytes → Round R
  write_escaped b f args s =
      if memory (length s * 6 + 1)
      then write b f args (json_escape (length s * 6 + 1) (some s))
      else stop failed

  unfoldable pub string_step : Buffer → Bytes → List (Arg R) → Round R
  string_step b f (text s ∷ args) = write_escaped b f args (or_null_text s)
  string_step b f args = stop undefined

  -- `truncated` is a second block.
  unfoldable pub write_cut : Buffer → Bytes → List (Arg R) → Bytes → Round R
  write_cut b f args s =
      if memory (length s * 6 + 1) && not (memory (length s + 1))
      then stop failed
      else write_escaped b f args s

  unfoldable pub cut_step : ℕ → Buffer → Bytes → List (Arg R) → Round R
  cut_step n b f (text s ∷ args) =
      if leb (2 ^ 31) n
      then stop undefined
      else write_cut b f args (take (cut_length n (or_null_text s)) (or_null_text s))
  cut_step n b f args = stop undefined

  unfoldable pub char_step : Buffer → Bytes → List (Arg R) → Round R
  char_step b f (integer v ∷ args) = write b f args (char_piece (to_signed 32 v))
  char_step b f args = stop undefined

  -- `if (vlen > 0)`
  unfoldable pub append_value : Buffer → Bytes → List (Arg R) → Bytes → Round R
  append_value b f args [] = go b f args
  append_value b f args (c ∷ w) = write b f args (c ∷ w)

  -- `val`, for a text that snprintf wrote: from malloc when the 64 bytes on the stack are too few.
  unfoldable pub value_step :
      (Bytes → Bytes) → Buffer → Bytes → List (Arg R) → Option Bytes → Round R
  value_step fix b f args none = go b f args
  value_step fix b f args (some w) =
      if ltb 64 (length w + 1) && not (memory (length w + 1))
      then stop failed
      else append_value b f args (fix w)

  unfoldable pub integer_step : (ℤ → ℤ) → Bytes → Buffer → Bytes → List (Arg R) → Round R
  integer_step read spec b f (integer v ∷ args) =
      value_step (λ w. w) b f args (print_int spec (read v))
  integer_step read spec b f args = stop undefined

  unfoldable pub double_step : Bytes → Buffer → Bytes → List (Arg R) → Round R
  double_step spec b f (double v ∷ args) = value_step or_null b f args (print_real spec v)
  double_step spec b f args = stop undefined

  unfoldable pub long_double_step : Bytes → Buffer → Bytes → List (Arg R) → Round R
  long_double_step spec b f (long_double v ∷ args) = value_step or_null b f args (print_real spec v)
  long_double_step spec b f args = stop undefined

  -- The specifier is written to nspec[64] without a test: where the '%', the specifier and the NUL are more
  -- than 64 bytes, that is undefined behaviour.
  unfoldable pub spelled : Bytes → Round R → Round R
  spelled spec next = if leb 64 (length spec + 1) then stop undefined else next

  unfoldable pub number_step : Verdict → Buffer → Bytes → List (Arg R) → Round R
  number_step skipped b f args = go b f args
  number_step refused b f args = stop failed
  number_step overrun b f args = stop undefined
  number_step (as_signed w spec) b f args = spelled spec (integer_step (to_signed w) spec b f args)
  number_step (as_unsigned w spec) b f args =
      spelled spec (integer_step (to_unsigned w) spec b f args)
  number_step (as_double spec) b f args = double_step spec b f args
  number_step (as_long_double spec) b f args = spelled spec (long_double_step spec b f args)

  unfoldable pub directive_step : Directive → Buffer → List (Arg R) → Round R
  directive_step (percent f) b args = go (put_byte b b'%') f args
  directive_step lone b args = stop failed
  directive_step star b args = stop failed
  directive_step unended b args = stop failed
  directive_step (cut n f) b args = cut_step n b f args
  directive_step (string f) b args = string_step b f args
  directive_step (char f) b args = char_step b f args
  directive_step (number body conv f) b args = number_step (verdict body conv) b f args

  unfoldable pub step_in : Option Buffer → ℕ → Bytes → List (Arg R) → Round R
  step_in none c f args = stop failed
  step_in (some b) c f args =
      if c == b'%' then directive_step (directive f) b args else go (put_byte b c) f args

  -- One round of `while (*f)`, at the format c ∷ f.
  unfoldable pub step : Buffer → ℕ → Bytes → List (Arg R) → Round R
  step b c f args = step_in (make_room memory b) c f args

  unfoldable pub resume : (Buffer → Bytes → List (Arg R) → Result) → Round R → Result
  resume again (stop o) = o
  resume again (go b f args) = again b f args

  -- Each round passes at least one byte of the format.
  unfoldable pub format_loop : ℕ → Buffer → Bytes → List (Arg R) → Result
  format_loop fuel b [] args = written b.text
  format_loop zero b (c ∷ f) args = unfinished
  format_loop (suc fuel) b (c ∷ f) args = resume (format_loop fuel) (step b c f args)

  -- Two failures stand in front of the loop: the first block, and a format that is NULL.
  unfoldable pub jsonfv : Option Bytes → List (Arg R) → Result
  jsonfv none args = failed
  jsonfv (some f) args =
      if memory 256
      then format_loop (length f) (record { text = []; capacity = 256 }) f args
      else failed

-- The response for an outcome, when the small block for "null" is there.
unfoldable pub answer : Result → Option Response
answer failed = some (record {
  status = 500;
  content_type = some (codes "application/json");
  body = some (codes "null");
  body_length = 4;
  chunked = false;
})
answer undefined = none
answer unfinished = none
answer (written w) = some (record {
  status = 200;
  content_type = some (codes "application/json");
  body = some w;
  body_length = length w;
  chunked = false;
})
