-- ===== src/Client/Reading.antt =====
-- What the client reads of what the server writes.
use mnet.Base.{
  ℕ, ◌+◌, ◌-◌, ◌*◌, ◌≤◌, ◌<◌, ◌≡◌, ◌≢◌, refl, sym, ap, subst, ◌∙◌, true, false, ◌&&◌, List, [], ◌∷◌,
  ◌++◌, Option, none, some, arith, ltb, leb, ==_ne, if◌then◌else◌, Bytes, All, codes, length,
  length-append, take, take-of_le, starts_with, cut_at, skip_while, append_assoc, append-nil, map,
  Bool, Bool-cases, inl, inr,
}
use mnet.Header.{value_valid}
use mnet.Parse.Text.{cr, lf}
use mnet.Parse.Line.{is_space}
use mnet.Parse.Length.{is_digit}
use mnet.Parse.Length.Value.{value, IsDigits}
use mnet.App.{decimal}
use mnet.Response.{
  Response, reasons, reason_in, type_of, lines, header_lines, content, chunks, whole, send_response,
}
use mnet.Response.Numbers.{decimal-cons, decimal-IsDigits, decimal-value}
use mnet.Response.Lines.{IsPlain, IsLine, IsFull, header_lines-IsFull}
use mnet.Client.{
  digits_value, delivers, receive_loop, atoi, number_behind, status_of, behind_blank, response_of,
  read_response,
}

behind_blank-line : (l t : Bytes) → IsLine l → behind_blank (l ++ t) ≡ behind_blank t
unfolding behind_blank starts_with
behind_blank-line [] t h = refl
behind_blank-line (c ∷ l) t h =
    rw (==_ne cr c (λ x. h.0.0 (sym x)), ==_ne lf c (λ x. h.0.1 (sym x)))
      (behind_blank-line l t h.1)

behind_blank-past :
    (c : ℕ) (t : Bytes) → IsPlain c → behind_blank (cr ∷ lf ∷ c ∷ t) ≡ behind_blank (c ∷ t)
unfolding behind_blank starts_with
behind_blank-past c t h = rw (==_ne cr c (λ x. h.0 (sym x)), ==_ne lf c (λ x. h.1 (sym x))) refl

behind_blank-here : (t : Bytes) → behind_blank (cr ∷ lf ∷ cr ∷ lf ∷ t) ≡ t
unfolding behind_blank starts_with
behind_blank-here t = refl

-- Behind lines that hold no line end stands what follows the empty line.
behind_blank-lines :
    (l : Bytes) (ls : List Bytes) (rest : Bytes)
    → IsLine l
    → All IsFull ls
    → behind_blank (lines (l ∷ ls) ++ rest) ≡ rest
unfolding lines
behind_blank-lines l [] rest h hs =
    ap behind_blank (append_assoc l (cr ∷ lf ∷ cr ∷ lf ∷ []) rest)
    ∙ behind_blank-line l (cr ∷ lf ∷ cr ∷ lf ∷ rest) h
    ∙ behind_blank-here rest
behind_blank-lines l ([] ∷ ls) rest h hs = absurd (hs.0.1 refl)
behind_blank-lines l ((c ∷ s) ∷ ls) rest h hs =
    let more = (c ∷ s) ++ cr ∷ lf ∷ lines ls in
    ap behind_blank (append_assoc l (cr ∷ lf ∷ more) rest)
    ∙ behind_blank-line l (cr ∷ lf ∷ (more ++ rest)) h
    ∙ behind_blank-past c ((s ++ cr ∷ lf ∷ lines ls) ++ rest) hs.0.0.0
    ∙ behind_blank-lines (c ∷ s) ls rest hs.0.0 hs.1

digits_value-append :
    (n : ℕ) (ds : Bytes) (c : ℕ) (rest : Bytes)
    → IsDigits ds
    → is_digit c ≡ false
    → (digits_value n (ds ++ c ∷ rest)).0 ≡ value n ds
unfolding digits_value
digits_value-append n [] c rest h e = rw e refl
digits_value-append n (d ∷ ds) c rest h e =
    rw h.0 (digits_value-append (n * 10 + (d - b'0')) ds c rest h.1 e)

-- No digit is skipped as white space.
skip_spaces-digits : (d : ℕ) (s : Bytes) → is_digit d ≡ true → skip_while is_space (d ∷ s) ≡ d ∷ s
unfolding skip_while is_space is_digit
skip_spaces-digits d s h = ground arith

atoi-decimal : (n c : ℕ) (rest : Bytes) → is_digit c ≡ false → atoi (decimal n ++ c ∷ rest) ≡ n
unfolding atoi
atoi-decimal n c rest e =
    let (d, ds, spelled) = decimal-cons n in
    let digits : IsDigits (d ∷ ds) = subst IsDigits spelled (decimal-IsDigits n) in
    let skipped = skip_spaces-digits d (ds ++ c ∷ rest) digits.0 in
    ap (λ x. (digits_value 0 (skip_while is_space (x ++ c ∷ rest))).0) spelled
    ∙ ap (λ x. (digits_value 0 x).0) skipped
    ∙ digits_value-append 0 (d ∷ ds) c rest digits e
    ∙ ap (value 0) (sym spelled)
    ∙ decimal-value n

status_of-line :
    (n : ℕ) (x : Bytes)
    → 1 ≤ length x
    → status_of (codes "HTTP/1.1 " ++ (decimal n ++ b' ' ∷ x)) ≡ n
unfolding status_of starts_with cut_at number_behind is_digit
status_of-line n x h =
    let (d, ds, spelled) = decimal-cons n in
    let long : leb 12 (length (codes "HTTP/1.1 " ++ (decimal n ++ b' ' ∷ x))) ≡ true =
      (let size : 1 ≤ length (decimal n) = rw spelled (omega arith) in
        let total = length-append (decimal n) (b' ' ∷ x) in ground arith) in
    rw long (atoi-decimal n b' ' x refl)

-- The pieces in which a text arrives, put together.
abbrev pub joined : List Bytes → Bytes
joined [] = []
joined (b ∷ bs) = b ++ joined bs

nothing_left :
    (raw more : Bytes) (cap : ℕ) → length (raw ++ more) ≤ cap → cap ≤ length raw → more ≡ []
nothing_left raw [] cap h1 h2 = refl
nothing_left raw (c ∷ more) cap h1 h2 = absurd (omega (arith, length-append raw (c ∷ more)))

receive_loop-joined :
    (cap : ℕ) (raw : Bytes) (pieces : List Bytes)
    → All (λ b. b ≢ []) pieces
    → length (raw ++ joined pieces) ≤ cap
    → receive_loop cap raw (map (λ b. delivers b) pieces) ≡ some (raw ++ joined pieces)
unfolding receive_loop
receive_loop-joined cap raw [] full h = ap some (sym (append-nil raw))
receive_loop-joined cap raw ([] ∷ pieces) full h = absurd (full.0 refl)
receive_loop-joined cap raw ((x ∷ xs) ∷ pieces) full h =
    let b = x ∷ xs in
    elim (Bool-cases (ltb (length raw) cap)) [
      | inl e ↦
          let assoc = append_assoc raw b (joined pieces) in
          rw e (
            receive_loop-joined cap (raw ++ b) pieces full.1 (omega (arith, ap length assoc))
            ∙ ap some assoc)
      | inr e ↦
          let none_left = nothing_left raw (b ++ joined pieces) cap h (ground arith) in
          rw e (ap some (sym (append-nil raw)) ∙ ap (λ x. some (raw ++ x)) (sym none_left))
    ]

header_text : Response → Bool → Bytes
header_text r keep_alive = lines (header_lines r keep_alive)

or_else : Bytes → Option Bytes → Bytes
or_else d none = d
or_else d (some x) = x

first : Bytes → List Bytes → Bytes
first d [] = d
first d (x ∷ xs) = x

-- What is sent with a body.
sent_lem :
    (r : Response) (keep_alive : Bool) (b out : Bytes)
    → r.chunked ≡ false
    → content r.body r.body_length ≡ some b
    → send_response r false keep_alive ≡ out ∷ []
    → (value_valid (some (type_of r.content_type)) ≡ true)
      × (length (header_text r keep_alive) < 1024)
      × (out ≡ header_text r keep_alive ++ b)
unfolding send_response whole header_text first or_else
sent_lem r keep_alive b out plain has_body sent =
    round (value_valid (some (type_of r.content_type)))
      (ltb (length (header_text r keep_alive)) 1024) r.chunked (content r.body r.body_length) refl
      refl plain has_body sent
  where
    round :
        (valid small chunked : Bool) (o : Option Bytes)
        → value_valid (some (type_of r.content_type)) ≡ valid
        → ltb (length (header_text r keep_alive)) 1024 ≡ small
        → chunked ≡ false
        → o ≡ some b
        → (if valid && small
            then (if chunked
                then header_text r keep_alive ∷ chunks o r.body_length
                else whole (header_text r keep_alive) o)
            else [])
          ≡ out ∷ []
        → (value_valid (some (type_of r.content_type)) ≡ true)
          × (length (header_text r keep_alive) < 1024)
          × (out ≡ header_text r keep_alive ++ b)
    round true true false (some b') e1 e2 e3 e4 e = (
      e1,
      ground arith,
      sym (ap (first []) e) ∙ ap (λ x. header_text r keep_alive ++ or_else [] x) e4,
    )
    round true true false none e1 e2 e3 e4 e = absurd (ground arith)
    round true true true o e1 e2 e3 e4 e = absurd (ground arith)
    round true false c o e1 e2 e3 e4 e = absurd (ground arith)
    round false small c o e1 e2 e3 e4 e = absurd (ground arith)

status_of-lines :
    (n : ℕ) (reason t b : Bytes)
    → status_of (((codes "HTTP/1.1 " ++ decimal n ++ b' ' ∷ reason) ++ cr ∷ lf ∷ t) ++ b) ≡ n
status_of-lines n reason t b =
    let grouped : ((decimal n ++ b' ' ∷ reason) ++ cr ∷ lf ∷ t) ++ b
        ≡ decimal n ++ b' ' ∷ (reason ++ cr ∷ lf ∷ (t ++ b)) =
      append_assoc (decimal n ++ b' ' ∷ reason) (cr ∷ lf ∷ t) b
      ∙ append_assoc (decimal n) (b' ' ∷ reason) (cr ∷ lf ∷ (t ++ b)) in
    ap (λ x. status_of (codes "HTTP/1.1 " ++ x)) grouped
    ∙ status_of-line n (reason ++ cr ∷ lf ∷ (t ++ b))
        (omega (arith, length-append reason (cr ∷ lf ∷ (t ++ b))))

status_of-header :
    (r : Response) (keep_alive : Bool) (b : Bytes)
    → status_of (header_text r keep_alive ++ b) ≡ r.status
unfolding header_lines header_text lines
status_of-header r keep_alive b = status_of-lines r.status (reason_in reasons r.status) _ b

behind_blank-header :
    (r : Response) (keep_alive : Bool) (b : Bytes)
    → value_valid (some (type_of r.content_type)) ≡ true
    → behind_blank (header_text r keep_alive ++ b) ≡ b
unfolding header_text header_lines
behind_blank-header r keep_alive b valid =
    let full = header_lines-IsFull r keep_alive valid in behind_blank-lines _ _ b full.0.0 full.1

response_of-text :
    (max : ℕ) (raw : Bytes)
    → 1 ≤ length raw
    → response_of max (some raw) ≡ some (status_of raw, take max (behind_blank raw))
unfolding response_of
response_of-text max [] h = absurd (omega arith)
response_of-text max (c ∷ raw) h = refl

header_text-long : (r : Response) (keep_alive : Bool) → 1 ≤ length (header_text r keep_alive)
unfolding header_text header_lines lines
header_text-long r keep_alive = ground arith

header_text-ne : (r : Response) (keep_alive : Bool) (b : Bytes) → header_text r keep_alive ++ b ≢ []
unfolding header_text header_lines lines
header_text-ne r keep_alive b = λ e. cc

pub send_response-ne :
    (r : Response) (keep_alive : Bool) (b out : Bytes)
    → r.chunked ≡ false
    → content r.body r.body_length ≡ some b
    → send_response r false keep_alive ≡ out ∷ []
    → out ≢ []
send_response-ne r keep_alive b out plain has_body sent e =
    header_text-ne r keep_alive b (sym (sent_lem r keep_alive b out plain has_body sent).2 ∙ e)

-- A response that is not chunked, with a body, that `send_response` sends to a request other than HEAD is
-- read back by the client, in whatever pieces (none empty) it arrives before the connection ends: the status and the body are those of the response, when
-- the body is within the client's limit.
pub read_response-send_response :
    (max : ℕ) (r : Response) (keep_alive : Bool) (b out : Bytes) (pieces : List Bytes)
    → r.chunked ≡ false
    → content r.body r.body_length ≡ some b
    → send_response r false keep_alive ≡ out ∷ []
    → All (λ x. x ≢ []) pieces
    → joined pieces ≡ out
    → length b ≤ max
    → read_response max (map (λ x. delivers x) pieces) ≡ some (r.status, b)
unfolding read_response
read_response-send_response max r keep_alive b out pieces plain has_body sent full arrives fits =
    let (valid, small, whole_text) = sent_lem r keep_alive b out plain has_body sent in
    let text : joined pieces ≡ header_text r keep_alive ++ b = arrives ∙ whole_text in
    let enough : length (joined pieces) ≤ max + 8192 =
      omega (arith, ap length text, length-append (header_text r keep_alive) b) in
    ap (response_of max) (receive_loop-joined (max + 8192) [] pieces full enough)
    ∙ ap (λ x. response_of max (some x)) text
    ∙ response_of-text max (header_text r keep_alive ++ b)
        (omega (arith, length-append (header_text r keep_alive) b, header_text-long r keep_alive))
    ∙ ap (λ x. some (x, take max (behind_blank (header_text r keep_alive ++ b))))
        (status_of-header r keep_alive b)
    ∙ ap (λ x. some (r.status, take max x)) (behind_blank-header r keep_alive b valid)
    ∙ ap (λ x. some (r.status, x)) (take-of_le max b fits)
