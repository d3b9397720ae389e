-- ===== src/Response/Lines.antt =====
-- The lines of a header: they hold no line end, so that the first blank line is behind them.
use mnet.Base.{
  ℕ, ◌+◌, ◌≡◌, ◌≢◌, inl, inr, refl, sym, ap, ◌∙◌, true, false, Bool, List, [], ◌∷◌, ◌++◌, some,
  arith, ◌==◌, ==_ne, Bool-cases, Bytes, All, All-append, codes, length, length-append, find_sub,
  starts_with, append_assoc, if◌then◌else◌,
}
use mnet.Header.{value_valid, value_loop}
use mnet.Parse.Text.{cr, lf}
use mnet.Parse.Length.{is_digit}
use mnet.Parse.Length.Value.{IsDigits}
use mnet.App.{decimal}
use mnet.Response.{Response, reasons, reason_in, type_of, lines, connection, header_lines}
use mnet.Response.Numbers.{decimal-IsDigits}

-- A byte that ends no line.
abbrev pub IsPlain : ℕ → Type 0
IsPlain c = (c ≢ cr) × (c ≢ lf)

-- A text without a line end.
abbrev pub IsLine : Bytes → Type 0
IsLine = All IsPlain

abbrev pub blank_line : Bytes
blank_line = cr ∷ lf ∷ cr ∷ lf ∷ []

find_sub-line :
    (l t : Bytes) (k : ℕ)
    → IsLine l
    → find_sub blank_line t ≡ some k
    → find_sub blank_line (l ++ t) ≡ some (length l + k)
unfolding find_sub starts_with
find_sub-line [] t k h e = e ∙ ap some (omega arith)
find_sub-line (c ∷ l) t k h e =
    let later = find_sub-line l t k h.1 e in
    rw (later, ==_ne cr c (λ x. h.0.0 (sym x))) (ap some (omega arith))

find_sub-past :
    (c : ℕ) (t : Bytes) (k : ℕ)
    → c ≢ cr
    → find_sub blank_line (c ∷ t) ≡ some k
    → find_sub blank_line (cr ∷ lf ∷ c ∷ t) ≡ some (2 + k)
unfolding find_sub starts_with
find_sub-past c t k h e = ground (arith, ==_ne cr c (λ x. h (sym x)))

find_sub-here : (t : Bytes) → find_sub blank_line (cr ∷ lf ∷ cr ∷ lf ∷ t) ≡ some 0
unfolding find_sub starts_with
find_sub-here t = refl

-- A line that is not empty.
abbrev pub IsFull : Bytes → Type 0
IsFull l = IsLine l × (l ≢ [])

lines-end :
    (l : Bytes) (ls : List Bytes) (rest : Bytes)
    → IsLine l
    → All IsFull ls
    → (k : ℕ) × (find_sub blank_line (lines (l ∷ ls) ++ rest) ≡ some k)
      × (k + 4 ≡ length (lines (l ∷ ls)))
unfolding lines
lines-end l [] rest h hs = (
  length l + 0,
  ap (find_sub blank_line) (append_assoc l blank_line rest)
      ∙ find_sub-line l (blank_line ++ rest) 0 h (find_sub-here rest),
  omega (arith, length-append l blank_line),
)
lines-end l ([] ∷ ls) rest h hs = absurd (hs.0.1 refl)
lines-end l ((c ∷ s) ∷ ls) rest h hs =
    let (k, found, size) = lines-end (c ∷ s) ls rest hs.0.0 hs.1 in
    let more = (c ∷ s) ++ cr ∷ lf ∷ lines ls in
    (
      length l + (2 + k),
      ap (find_sub blank_line) (append_assoc l (cr ∷ lf ∷ more) rest)
          ∙ find_sub-line l (cr ∷ lf ∷ (more ++ rest)) (2 + k) h
              (find_sub-past c ((s ++ cr ∷ lf ∷ lines ls) ++ rest) k hs.0.0.0.0 found),
      omega (arith, length-append l (cr ∷ lf ∷ more)),
    )

IsDigits-IsLine : (s : Bytes) → IsDigits s → IsLine s
IsDigits-IsLine [] h = tt
IsDigits-IsLine (c ∷ s) h = ((unfold is_digit in ground arith), IsDigits-IsLine s h.1)

reason_in-IsLine :
    (table : List (ℕ × Bytes)) (status : ℕ)
    → All (λ e. IsLine e.1) table
    → IsLine (reason_in table status)
unfolding reason_in
reason_in-IsLine [] status h = omega arith
reason_in-IsLine ((s, text) ∷ more) status h = elim (Bool-cases (status == s)) [
  | inl e ↦ rw e h.0
  | inr e ↦ rw e (reason_in-IsLine more status h.1)
]

reasons-IsLine : All (λ e. IsLine e.1) reasons
reasons-IsLine = omega arith

value_loop-IsLine : (s : Bytes) → value_loop s ≡ true → IsLine s
unfolding value_loop
value_loop-IsLine [] h = tt
value_loop-IsLine (c ∷ s) h = ground (arith, value_loop-IsLine s)

connection-IsFull : (keep_alive : Bool) → IsFull (connection keep_alive)
unfolding connection
connection-IsFull true = (omega arith, ground arith)
connection-IsFull false = (omega arith, ground arith)

decimal-IsLine : (n : ℕ) → IsLine (decimal n)
decimal-IsLine n = IsDigits-IsLine (decimal n) (decimal-IsDigits n)

status_line-IsFull :
    (status : ℕ) → IsFull (codes "HTTP/1.1 " ++ decimal status ++ b' ' ∷ reason_in reasons status)
status_line-IsFull status = (
  All-append IsPlain (codes "HTTP/1.1 " ++ decimal status) (b' ' ∷ reason_in reasons status)
      (All-append IsPlain (codes "HTTP/1.1 ") (decimal status) (omega arith)
        (decimal-IsLine status))
      (omega arith, reason_in-IsLine reasons status reasons-IsLine),
  ground arith,
)

size_line-IsFull :
    (chunked : Bool) (n : ℕ)
    → IsFull (
        if chunked
        then codes "Transfer-Encoding: chunked"
        else codes "Content-Length: " ++ decimal n)
size_line-IsFull true n = (omega arith, ground arith)
size_line-IsFull false n = (
  All-append IsPlain (codes "Content-Length: ") (decimal n) (omega arith) (decimal-IsLine n),
  ground arith,
)

type_line-IsFull : (ct : Bytes) → value_loop ct ≡ true → IsFull (codes "Content-Type: " ++ ct)
type_line-IsFull ct valid = (
  All-append IsPlain (codes "Content-Type: ") ct (omega arith) (value_loop-IsLine ct valid),
  ground arith,
)

pub header_lines-IsFull :
    (r : Response) (keep_alive : Bool)
    → value_valid (some (type_of r.content_type)) ≡ true
    → All IsFull (header_lines r keep_alive)
unfolding header_lines value_valid
header_lines-IsFull r keep_alive valid = (
  status_line-IsFull r.status,
  (
    size_line-IsFull r.chunked r.body_length,
    (type_line-IsFull (type_of r.content_type) valid, (connection-IsFull keep_alive, tt)),
  ),
)

pub header_lines-end :
    (r : Response) (keep_alive : Bool) (rest : Bytes)
    → value_valid (some (type_of r.content_type)) ≡ true
    → (k : ℕ) × (find_sub blank_line (lines (header_lines r keep_alive) ++ rest) ≡ some k)
      × (k + 4 ≡ length (lines (header_lines r keep_alive)))
unfolding header_lines
header_lines-end r keep_alive rest valid =
    let full = header_lines-IsFull r keep_alive valid in lines-end _ _ rest full.0.0 full.1
