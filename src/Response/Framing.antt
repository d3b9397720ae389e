-- ===== src/Response/Framing.antt =====
-- Where the header of a response ends.
use mnet.Base.{
  ℕ, ◌+◌, ◌<◌, ◌≡◌, ◌⊎◌, inl, inr, refl, sym, ap, ◌∙◌, true, false, Bool, ◌&&◌, List, [], ◌∷◌, ◌++◌,
  Option, none, some, arith, ltb, Bytes, length, find_sub, append-nil, if◌then◌else◌,
}
use mnet.Header.{value_valid}
use mnet.Response.{Response, type_of, lines, header_lines, content, chunks, whole, send_response}
use mnet.Response.Lines.{blank_line, header_lines-end}

or_nil : Bytes → Option Bytes → Bytes
or_nil d none = d
or_nil d (some b) = b

-- What is sent begins with a header below 1024 bytes, whose end is the first blank line of the sent text.
pub record IsFramed (r : Response) (head_only : Bool) (sent : List Bytes) : Type 0 where
  pub header : Bytes
  pub behind : Bytes
  pub others : List Bytes
  pub sent_so : sent ≡ (header ++ behind) ∷ others
  pub small : length header < 1024
  pub end_at : ℕ
  pub first_blank_line : find_sub blank_line (header ++ behind) ≡ some end_at
  pub end_of_header : end_at + 4 ≡ length header
  pub head_alone : head_only ≡ true → (behind ≡ []) × (others ≡ [])
  pub body_behind :
      head_only ≡ false
      → r.chunked ≡ false
      → (others ≡ [])
        × ((b : Bytes) → content r.body r.body_length ≡ some b → behind ≡ b)
        × (content r.body r.body_length ≡ none → behind ≡ [])

IsFramed-alone :
    (r : Response) (header : Bytes) (others : List Bytes) (head_only : Bool)
    → length header < 1024
    → (k : ℕ) × (find_sub blank_line (header ++ []) ≡ some k) × (k + 4 ≡ length header)
    → (head_only ≡ true → others ≡ [])
    → (head_only ≡ false
        → r.chunked ≡ false
        → (others ≡ []) × (content r.body r.body_length ≡ none))
    → IsFramed r head_only (header ∷ others)
IsFramed-alone r header others head_only small (k, found, size) h1 h2 = record {
  header = header;
  behind = [];
  others = others;
  sent_so = ap (λ x. x ∷ others) (sym (append-nil header));
  small = small;
  end_at = k;
  first_blank_line = found;
  end_of_header = size;
  head_alone = λ e. (refl, h1 e);
  body_behind = λ e1 e2.
      ((h2 e1 e2).0, λ b e. let none_is = (h2 e1 e2).1 in absurd (ground arith), λ e. refl);
}

whole-IsFramed :
    (r : Response) (header : Bytes) (o : Option Bytes)
    → content r.body r.body_length ≡ o
    → length header < 1024
    → ((rest : Bytes)
        → (k : ℕ) × (find_sub blank_line (header ++ rest) ≡ some k) × (k + 4 ≡ length header))
    → IsFramed r false (whole header o)
unfolding whole or_nil
whole-IsFramed r header none e small ends =
    IsFramed-alone r header [] false small (ends []) (ground arith) (λ _ _. (refl, e))
whole-IsFramed r header (some b) e small ends =
    let (k, found, size) = ends b in
    record {
      header = header;
      behind = b;
      others = [];
      sent_so = refl;
      small = small;
      end_at = k;
      first_blank_line = found;
      end_of_header = size;
      head_alone = ground arith;
      body_behind =
          λ _ _. (refl, λ b' e'. ap (or_nil []) (sym e ∙ e'), λ e'. absurd (ground arith));
    }

-- Whatever the content type, `send_response` sends nothing, or a header of less than 1024 bytes that ends
-- at the first blank line of what is sent: neither a status nor a content type can split the response.
-- For HEAD nothing follows the header; otherwise, unless chunked, exactly the body follows it, and nothing
-- when there is no body to send.
pub send_response-IsFramed :
    (r : Response) (head_only keep_alive : Bool)
    → (send_response r head_only keep_alive ≡ [])
      ⊎ IsFramed r head_only (send_response r head_only keep_alive)
unfolding send_response
send_response-IsFramed r head_only keep_alive =
    round (value_valid (some (type_of r.content_type))) (ltb (length header) 1024) head_only
      r.chunked refl refl refl
  where
    header : Bytes
    header = lines (header_lines r keep_alive)

    round :
        (valid small head_only chunked : Bool)
        → value_valid (some (type_of r.content_type)) ≡ valid
        → ltb (length header) 1024 ≡ small
        → r.chunked ≡ chunked
        → let sent =
            if valid && small
            then (if head_only
                then header ∷ []
                else if chunked
                then header ∷ chunks (content r.body r.body_length) r.body_length
                else whole header (content r.body r.body_length))
            else [] in
          (sent ≡ []) ⊎ IsFramed r head_only sent
    round false small head_only chunked e1 e2 e3 = inl refl
    round true false head_only chunked e1 e2 e3 = inl refl
    round true true true chunked e1 e2 e3 = inr (
        IsFramed-alone r header [] true (ground arith) (header_lines-end r keep_alive [] e1)
          (λ _. refl) (ground arith))
    round true true false true e1 e2 e3 = inr (
        IsFramed-alone r header _ false (ground arith) (header_lines-end r keep_alive [] e1)
          (ground arith) (ground arith))
    round true true false false e1 e2 e3 = inr (
        whole-IsFramed r header (content r.body r.body_length) refl (ground arith)
          (λ rest. header_lines-end r keep_alive rest e1))
