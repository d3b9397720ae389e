-- ===== src/Format/Tests.antt =====
-- Formats that are rendered, and the theorems on them at concrete ones.
use mnet.Base.{
  ℕ, zero, suc, ◌<◌, ◌≡◌, ◌≢◌, refl, ◌⊎◌, ◌+◌, length, Bool, true, List, [], ◌∷◌, ◌++◌, Option,
  some, arith, Bytes, codes, All, find_sub, starts_with,
}
use mnet.Header.{has}
use mnet.App.{decimal, digits_from}
use mnet.Json.{hex_digit, unicode_escape, piece, put, escape_loop, json_escape}
use mnet.Json.Bounds.{escaped}
use mnet.Json.Reading.{Mode, read}
use mnet.Parse.Length.{is_digit}
use mnet.Client.{digits_value}
use mnet.Format.{
  Directive, is_conversion, scan_conversion, collected, general, behind_dot, directive,
}
use mnet.Format.Buffer.{Buffer, grow_loop, make_room, put_text, filled, put_byte}
use mnet.Format.Cut.{
  is_continuation, back_up, seq_len, settle, cut_length, IsCut, cut_length-IsCut, cut_length-lead,
}
use mnet.App.{ℤ, pos, negsuc}
use mnet.Format.Spec.{
  residue, to_signed, to_unsigned, is_numeric, is_float, is_signed, bad_char, any_bad, rejected,
  without, integer_spec, long_spec, is_present, argument_width, real_verdict, integer_verdict,
  width_verdict, verdict, as_signed, as_unsigned,
}
use mnet.Format.Loop.{
  Arg, text, integer, double, Result, failed, unfinished, written, hex_digits, char_piece,
  not_finite, or_null, or_null_text, continued, write, write_escaped, string_step, write_cut,
  cut_step, char_step, append_value, value_step, integer_step, double_step, long_double_step,
  spelled, number_step, directive_step, step_in, step, resume, format_loop, jsonfv,
}
use mnet.Format.Fuel.{jsonfv-finished}
use mnet.Format.Room.{Reached, jsonfv-IsRoomy}
use mnet.Format.Guard.{Passed, verdict-Passed, verdict-overrun}
use mnet.Format.Items.{
  Item, literal, percent_sign, cut_item, number_item, IsSpec, signed, arguments,
}
use mnet.Format.Render.{jsonfv-render, jsonfv-read}

-- To run a format a test unfolds this name.
runs : Unit {0}
unfolding has digits_from decimal hex_digit unicode_escape piece put escape_loop json_escape
    is_digit digits_value is_conversion scan_conversion collected general behind_dot directive
    grow_loop make_room put_text filled put_byte is_continuation back_up seq_len settle cut_length
    residue to_signed to_unsigned is_numeric is_float is_signed bad_char any_bad rejected without
    integer_spec long_spec is_present argument_width real_verdict integer_verdict width_verdict
    verdict hex_digits char_piece not_finite or_null or_null_text continued write write_escaped
    string_step write_cut cut_step char_step append_value value_step integer_step double_step
    long_double_step spelled number_step directive_step step_in step resume format_loop jsonfv
    find_sub starts_with escaped
runs = tt

abbrev memory : ℕ → Bool
memory n = true

-- "%lld", and a float that is infinite when it is 0
abbrev print_int : Bytes → ℤ → Option Bytes
unfolding decimal digits_from
print_int spec (pos n) = some (decimal n)
print_int spec (negsuc n) = some (b'-' ∷ decimal (suc n))

abbrev print_real : Bytes → ℕ → Option Bytes
print_real spec zero = some (codes "-inf")
print_real spec (suc n) = some (codes "1.5")

abbrev run : Bytes → List (Arg ℕ) → Result
unfolding runs
run format args = jsonfv memory print_int print_real (some format) args

object :
    run
      (codes "{\"n\": \"%s\", \"v\": %d, \"p\": %.1f%%}")
      (text (some (codes "a\"b")) ∷ integer (negsuc 4) ∷ double 1 ∷ [])
    ≡ written (codes "{\"n\": \"a\\\"b\", \"v\": -5, \"p\": 1.5%}")
unfolding run
object = refl

infinite : run (codes "%g") (double 0 ∷ []) ≡ written (codes "null")
unfolding run
infinite = refl

-- %hhd keeps the low byte of its argument, with its sign.
low_byte :
    run (codes "%hhd %u") (integer (pos 511) ∷ integer (negsuc 0) ∷ [])
    ≡ written (codes "-1 4294967295")
unfolding run
low_byte = refl

refusals :
    (run (codes "%") [] ≡ failed)
    × (run (codes "%*d") [] ≡ failed)
    × (run (codes "%n") [] ≡ failed)
    × (run (codes "%5000d") [] ≡ failed)
unfolding run
refusals = (refl, refl, refl, refl)

-- The byte of 256 + 34 is a quote, which is not escaped.
wide_char : run (codes "%c") (integer (pos 290) ∷ []) ≡ written (codes "\"")
unfolding run
wide_char = refl

-- A '*' behind a flag, and a wide field behind a flag, reach snprintf; a modifier on %s takes the
-- next conversion character for its own.
late_modifiers :
    (verdict (codes "-*") b'd' ≡ as_signed 32 (codes "-*lld"))
    × (verdict (codes "-99999") b'd' ≡ as_signed 32 (codes "-99999lld"))
    × (directive (codes "5s items") ≡ Directive.number (codes "5s ") b'i' (codes "tems"))
    × (verdict (codes "5s ") b'i' ≡ as_signed 32 (codes "5s lli"))
unfolding runs
late_modifiers = (refl, refl, refl, refl)

abbrev zeros : ℕ → Bytes
zeros zero = []
zeros (suc n) = b'0' ∷ zeros n

zeros-All : (P : ℕ → Type 0) (n : ℕ) → P b'0' → All P (zeros n)
zeros-All P zero h = tt
zeros-All P (suc n) h = (h, zeros-All P n h)

-- A specifier of 64 bytes or more is passed over, and its argument is left for the next one.
long_specifier :
    run (b'%' ∷ zeros 62 ++ codes "d %d") (integer (pos 1) ∷ integer (pos 2) ∷ [])
    ≡ written (codes " 1")
unfolding run
long_specifier = refl

cut_length-IsCut_example : IsCut 1 (0xC3 ∷ 0xA9 ∷ []) (cut_length 1 (0xC3 ∷ 0xA9 ∷ []))
cut_length-IsCut_example = cut_length-IsCut 1 (0xC3 ∷ 0xA9 ∷ [])

-- "a" and a letter of two bytes, at precision 1
cut_length-lead_example : cut_length 1 (b'a' ∷ 0xC3 ∷ 0xA9 ∷ []) ≡ 0
cut_length-lead_example =
    cut_length-lead 1 (b'a' ∷ 0xC3 ∷ 0xA9 ∷ []) (omega arith) (omega arith) (omega arith)

jsonfv-finished_example : run (codes "%d%s%%") (integer (pos 7) ∷ []) ≢ unfinished
unfolding run
jsonfv-finished_example =
    jsonfv-finished memory print_int print_real (some (codes "%d%s%%")) (integer (pos 7) ∷ [])

jsonfv-IsRoomy_example :
    (b : Buffer) × (args : List (Arg ℕ)) × Reached memory print_int print_real
      (codes "[%d]")
      (integer (pos 7) ∷ [])
      b
      []
      args
    × (codes "[7]" ≡ b.text)
    × (3 < b.capacity)
unfolding run
jsonfv-IsRoomy_example =
    jsonfv-IsRoomy memory print_int print_real (codes "[%d]") (integer (pos 7) ∷ []) (codes "[7]")
      refl

verdict-Passed_example : Passed (codes "08.3L") b'f' (verdict (codes "08.3L") b'f')
verdict-Passed_example = verdict-Passed (codes "08.3L") b'f'

verdict-overrun_example :
    (w : ℕ) × (spec : Bytes) × ((verdict (zeros 61) b'd' ≡ as_signed w spec)
      ⊎ (verdict (zeros 61) b'd' ≡ as_unsigned w spec))
    × (64 < length spec + 2)
unfolding runs
verdict-overrun_example =
    verdict-overrun (zeros 61) b'd' refl
      (zeros-All (λ c. has (codes "+-# .0123456789") c ≡ true) 61 refl) (omega arith) (omega arith)
      (omega arith)

abbrev items : List (Item ℕ)
items =
    literal b'['
    ∷ number_item (codes ".2") b'd' (integer (pos 7))
    ∷ percent_sign
    ∷ cut_item 2 (some (codes "a\"b"))
    ∷ literal b']'
    ∷ []

number_IsSpec : IsSpec (codes ".2") b'd'
unfolding runs
number_IsSpec = record { plain = (refl, (refl, tt)); conversion = refl; starts = refl }

jsonfv-render_example :
    jsonfv memory print_int print_real (some (codes "[%.2d%%%.2s]")) (arguments items)
    ≡ written (codes "[7%a\\\"]")
unfolding run
jsonfv-render_example =
    jsonfv-render memory print_int print_real (λ n. refl) items
      (
        omega arith,
        (
          (number_IsSpec, signed 32 (codes ".2lld") (pos 7) (omega arith)),
          (tt, (omega arith, (omega arith, tt))),
        ),
      )

jsonfv-read_example :
    (t : Bytes) × (jsonfv memory print_int print_real
        (some (codes "{\"%s\": 1}"))
        (text (some (codes "a\"b")) ∷ [])
      ≡ written (b'{' ∷ b'"' ∷ t))
    × (read Mode.text t [] ≡ some (codes "a\"b", codes ": 1}"))
unfolding run
jsonfv-read_example =
    jsonfv-read memory print_int print_real (λ n. refl) (literal b'{' ∷ [])
      (literal b':' ∷ literal b' ' ∷ literal b'1' ∷ literal b'}' ∷ []) (codes "a\"b")
      (omega arith, tt) (omega arith, (omega arith, (omega arith, (omega arith, tt))))
