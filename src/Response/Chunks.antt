-- ===== src/Response/Chunks.antt =====
-- The chunks of a response, against a decoder of the chunked encoding.
use mnet.Base.{
  ℕ, zero, suc, ◌+◌, ◌*◌, ◌/◌, ◌%◌, ◌≤◌, ◌<◌, ◌≡◌, refl, sym, ap, subst, ◌∙◌, Bool, true, false,
  ◌&&◌, List, [], ◌∷◌, ◌++◌, Option, none, some, arith, ltb, ◌==◌, ==_ne, Bool-cases, inl, inr,
  if◌then◌else◌, ◌>>=◌, Bytes, codes, length, take, drop, take-append, drop-append, append_assoc,
  append-nil,
}
use mnet.Url.{hex_value}
use mnet.Header.{value_valid}
use mnet.Parse.Text.{cr, lf}
use mnet.Response.{
  Response, type_of, lines, header_lines, hex_char, hex_from, content, chunks, whole, send_response,
}

-- Hexadecimal digits behind the number n, and what follows them.
unfoldable pub hex_number : ℕ → Bytes → ℕ × Bytes
hex_number n [] = (n, [])
hex_number n (c ∷ s) = elim (hex_value c) [ none ↦ (n, c ∷ s) | some d ↦ hex_number (n * 16 + d) s ]

-- What stands behind a "\r\n" at the front.
unfoldable pub past_line_end : Bytes → Option Bytes
past_line_end [] = none
past_line_end (c ∷ []) = none
past_line_end (c ∷ d ∷ s) = if c == cr && d == lf then some s else none

-- A text that is one "\r\n" and ends there.
unfoldable pub only_line_end : Bytes → Option Bytes
only_line_end [] = none
only_line_end (c ∷ []) = none
only_line_end (c ∷ d ∷ []) = if c == cr && d == lf then some [] else none
only_line_end (c ∷ d ∷ e ∷ s) = none

-- A body in chunks: each is its length, a line end, its bytes and a line end; one of length 0 is the last,
-- and an empty line follows it, with nothing behind that line. The fuel bounds the number of the chunks.
unfoldable pub read_chunks : ℕ → Bytes → Option Bytes
read_chunks zero s = none
read_chunks (suc fuel) s =
    let (n, rest) = hex_number 0 s in
    past_line_end rest >>= λ inner.
    if n == 0
    then only_line_end inner
    else (past_line_end (drop n inner) >>= λ more.
        read_chunks fuel more >>= λ bytes. some (take n inner ++ bytes))

-- The texts sent, one behind the other.
abbrev pub joined : List Bytes → Bytes
joined [] = []
joined (b ∷ bs) = b ++ joined bs

hex_value-hex_char : (d : ℕ) → d < 16 → hex_value (hex_char d) ≡ some d
unfolding hex_value hex_char
hex_value-hex_char d h = ground arith

hex_number-hex_char :
    (n d : ℕ) (s : Bytes) → d < 16 → hex_number n (hex_char d ∷ s) ≡ hex_number (n * 16 + d) s
unfolding hex_number
hex_number-hex_char n d s h =
    subst
      (λ (o : Option ℕ).
        elim o as (λ _. ℕ × Bytes) [
          | none ↦ (n, hex_char d ∷ s)
          | some e ↦ hex_number (n * 16 + e) s
        ]
        ≡ hex_number (n * 16 + d) s)
      (sym (hex_value-hex_char d h)) refl

hex_number-hex_from :
    (fuel n : ℕ) (tail : Bytes) → n < fuel → hex_number 0 (hex_from fuel n tail) ≡ hex_number n tail
unfolding hex_from
hex_number-hex_from zero n tail h = absurd (omega arith)
hex_number-hex_from (suc fuel) n tail h =
    let there : (n / 16) * 16 + n % 16 ≡ n = omega arith in
    let here : 0 * 16 + n ≡ n = omega arith in
    let more : (1 ≤ n)
        → hex_number 0 (hex_from fuel (n / 16) (hex_char (n % 16) ∷ tail))
          ≡ hex_number (n / 16) (hex_char (n % 16) ∷ tail) =
      λ e. hex_number-hex_from fuel (n / 16) (hex_char (n % 16) ∷ tail) (omega arith) in
    elim (Bool-cases (ltb n 16)) [
      | inl e ↦
          rw e (hex_number-hex_char 0 n tail (ground arith) ∙ ap (λ x. hex_number x tail) here)
      | inr e ↦ rw e (
          more (ground arith)
          ∙ hex_number-hex_char (n / 16) (n % 16) tail (omega arith)
          ∙ ap (λ x. hex_number x tail) there)
    ]

-- No digit stands in front of a line end.
hex_number-cr : (n : ℕ) (s : Bytes) → hex_number n (cr ∷ s) ≡ (n, cr ∷ s)
unfolding hex_number hex_value
hex_number-cr n s = refl

hex_from-append :
    (fuel n : ℕ) (tail s : Bytes) → hex_from fuel n tail ++ s ≡ hex_from fuel n (tail ++ s)
unfolding hex_from
hex_from-append zero n tail s = refl
hex_from-append (suc fuel) n tail s =
    let more = hex_from-append fuel (n / 16) (hex_char (n % 16) ∷ tail) s in ground arith

last_chunk : (fuel : ℕ) → read_chunks (suc fuel) (codes "0\r\n\r\n") ≡ some []
unfolding read_chunks hex_number hex_value past_line_end only_line_end
last_chunk fuel = refl

-- The length of a chunk is read back, and then its bytes.
read_chunks-size :
    (fuel : ℕ) (b s : Bytes)
    → 1 ≤ length b
    → read_chunks
        (suc fuel)
        (hex_from (suc (length b)) (length b) [] ++ cr ∷ lf ∷ (b ++ cr ∷ lf ∷ s))
      ≡ (read_chunks fuel s >>= λ bytes. some (b ++ bytes))
unfolding read_chunks past_line_end
read_chunks-size fuel b s h =
    let inner = b ++ cr ∷ lf ∷ s in
    let size : hex_number 0 (hex_from (suc (length b)) (length b) [] ++ cr ∷ lf ∷ inner)
        ≡ (length b, cr ∷ lf ∷ inner) =
      ap (hex_number 0) (hex_from-append (suc (length b)) (length b) [] (cr ∷ lf ∷ inner))
      ∙ hex_number-hex_from (suc (length b)) (length b) (cr ∷ lf ∷ inner) (omega arith)
      ∙ hex_number-cr (length b) (lf ∷ inner) in
    rw
      (
        size,
        ==_ne (length b) 0 (omega arith),
        drop-append b (cr ∷ lf ∷ s),
        take-append b (cr ∷ lf ∷ s),
      )
      refl

read_chunks-chunks :
    (b : Bytes) → 1 ≤ length b → read_chunks 2 (joined (chunks (some b) (length b))) ≡ some b
unfolding chunks
read_chunks-chunks b h =
    let last : Bytes = codes "0\r\n\r\n" in
    ap (read_chunks 2)
      (append_assoc (hex_from (suc (length b)) (length b) []) (cr ∷ lf ∷ []) (b ++ cr ∷ lf ∷ last))
    ∙ read_chunks-size 1 b last h
    ∙ ap (λ (o : Option Bytes). o >>= λ bytes. some (b ++ bytes)) (last_chunk 0)
    ∙ ap some (append-nil b)

content-pos : (o : Option Bytes) (n : ℕ) (b : Bytes) → content o n ≡ some b → 1 ≤ n
unfolding content
content-pos none n b h = absurd (ground arith)
content-pos (some x) n b h = ground arith

rest_of : List Bytes → List Bytes
rest_of [] = []
rest_of (x ∷ xs) = xs

chunks_sent :
    (r : Response) (keep_alive : Bool) (o : Option Bytes) (header : Bytes) (outs : List Bytes)
    → r.chunked ≡ true
    → content r.body r.body_length ≡ o
    → send_response r false keep_alive ≡ header ∷ outs
    → outs ≡ chunks o r.body_length
unfolding send_response rest_of
chunks_sent r keep_alive o header outs is_chunked has_body sent =
    round (value_valid (some (type_of r.content_type))) (ltb (length text) 1024) r.chunked
      is_chunked sent
    ∙ ap (λ x. chunks x r.body_length) has_body
  where
    text : Bytes
    text = lines (header_lines r keep_alive)

    round :
        (valid small chunked : Bool)
        → chunked ≡ true
        → (if valid && small
            then (if chunked
                then text ∷ chunks (content r.body r.body_length) r.body_length
                else whole text (content r.body r.body_length))
            else [])
          ≡ header ∷ outs
        → outs ≡ chunks (content r.body r.body_length) r.body_length
    round true true true e1 e = sym (ap rest_of e)
    round true true false e1 e = absurd (ground arith)
    round true false c e1 e = absurd (ground arith)
    round false small c e1 e = absurd (ground arith)

-- What `send_response` sends behind the header of a chunked response (not to HEAD) is, to a decoder of the chunked
-- encoding, exactly the body, when there is one and body_length bytes of it exist; without a body it is
-- the last chunk alone, which decodes to nothing. The decoder refuses a text that goes on behind the last
-- chunk.
pub read_chunks-send_response :
    (r : Response) (keep_alive : Bool) (header : Bytes) (outs : List Bytes)
    → r.chunked ≡ true
    → send_response r false keep_alive ≡ header ∷ outs
    → ((b : Bytes)
        → content r.body r.body_length ≡ some b
        → length b ≡ r.body_length
        → read_chunks 2 (joined outs) ≡ some b)
      × (content r.body r.body_length ≡ none → read_chunks 2 (joined outs) ≡ some [])
read_chunks-send_response r keep_alive header outs is_chunked sent = (
  λ b has_body size.
      ap (λ x. read_chunks 2 (joined x))
        (chunks_sent r keep_alive (some b) header outs is_chunked has_body sent)
      ∙ ap (λ n. read_chunks 2 (joined (chunks (some b) n))) (sym size)
      ∙ read_chunks-chunks b (omega (arith, size, content-pos r.body r.body_length b has_body)),
  λ no_body.
      ap (λ x. read_chunks 2 (joined x))
        (chunks_sent r keep_alive none header outs is_chunked no_body sent)
      ∙ nothing_sent r.body_length,
)
  where
    nothing_sent : (n : ℕ) → read_chunks 2 (joined (chunks none n)) ≡ some []
    nothing_sent n = unfold chunks in last_chunk 1
