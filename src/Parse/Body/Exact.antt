-- ===== src/Parse/Body/Exact.antt =====
-- The body is exactly as long as the headers say, and holds the bytes that follow the headers.
use mnet.Base.{
  ℕ, zero, suc, ◌+◌, ◌-◌, ◌≤◌, ◌<◌, ◌≡◌, refl, sym, ◌∙◌, ap, Bool, List, [], ◌∷◌, ◌++◌,
  append_assoc, append-nil, Option, none, some, arith, Bytes, length, length-append, length-take,
  take, drop, take-append-of_le,
}
use native.Mathlib.Decide.{dec_lt, ℕ_discrete}
use mnet.Parse.Text.{c_str, header_end}
use mnet.Parse.Length.{Parsed, failed, length_is, content_length}
use mnet.Parse.Body.{
  Event, data_ready, failure, recv_loop, body, body_of_length, body_of_parsed, body_behind,
  read_full_body,
}

-- The bytes that the client sends before the first failure.
pub delivered : List Event → Bytes
delivered [] = []
delivered (failure ∷ events) = []
delivered (data_ready b ∷ events) = b ++ delivered events

take-append_le :
    (n : ℕ) (xs ys : Bytes) → length xs ≤ n → take n (xs ++ ys) ≡ xs ++ take (n - length xs) ys
take-append_le n [] ys h = ap (λ k. take k ys) (omega arith)
take-append_le zero (x ∷ xs) ys h = absurd (omega arith)
take-append_le (suc n) (x ∷ xs) ys h =
    ap (λ l. x ∷ l) (take-append_le n xs ys (omega arith) ∙ ap (λ k. xs ++ take k ys) (omega arith))

take-take-append : (n : ℕ) (b m : Bytes) → take n (take n b ++ m) ≡ take n (b ++ m)
take-take-append zero b m = refl
take-take-append (suc n) [] m = refl
take-take-append (suc n) (c ∷ b) m = ap (λ l. c ∷ l) (take-take-append n b m)

-- A read of what is still missing gives the same prefix as all that could be read.
take-partial :
    (n : ℕ) (acc b m : Bytes)
    → length acc ≤ n
    → take n ((acc ++ take (n - length acc) b) ++ m) ≡ take n (acc ++ (b ++ m))
take-partial n acc b m h =
    ap (take n) (append_assoc acc (take (n - length acc) b) m)
    ∙ take-append_le n acc (take (n - length acc) b ++ m) h
    ∙ ap (λ l. acc ++ l) (take-take-append (n - length acc) b m)
    ∙ sym (take-append_le n acc (b ++ m) h)

abbrev Filled : ℕ → Bytes → Bytes → Bytes → Type 0
Filled len acc more r = (length r ≡ len) × (r ≡ take len (acc ++ more))

full_already :
    (len : ℕ) (acc more r : Bytes)
    → length acc ≤ len
    → len ≤ length acc
    → acc ≡ r
    → Filled len acc more r
full_already len acc more r le ge e =
    let none_missing : 0 ≡ len - length acc = omega arith in
    (
      rw (← e) (omega arith),
      sym e
          ∙ sym (append-nil acc)
          ∙ ap (λ k. acc ++ take k more) none_missing
          ∙ sym (take-append_le len acc more le),
    )

-- One round of the loop.
round_full :
    (len : ℕ) (acc : Bytes) (events : List Event)
    → len ≤ length acc
    → recv_loop len acc events ≡ some acc
unfolding recv_loop
round_full len acc [] h = ground arith
round_full len acc (e ∷ events) h = ground arith

round_ended : (len : ℕ) (acc : Bytes) → length acc < len → recv_loop len acc [] ≡ none
unfolding recv_loop
round_ended len acc h = ground arith

round_failed :
    (len : ℕ) (acc : Bytes) (events : List Event)
    → length acc < len
    → recv_loop len acc (failure ∷ events) ≡ none
unfolding recv_loop
round_failed len acc events h = ground arith

round_closed :
    (len : ℕ) (acc b : Bytes) (events : List Event)
    → length acc < len
    → take (len - length acc) b ≡ []
    → recv_loop len acc (data_ready b ∷ events) ≡ none
unfolding recv_loop
round_closed len acc b events h e = ground arith

round_data :
    (len c : ℕ) (acc b t : Bytes) (events : List Event)
    → length acc < len
    → take (len - length acc) b ≡ c ∷ t
    → recv_loop len acc (data_ready b ∷ events) ≡ recv_loop len (acc ++ c ∷ t) events
unfolding recv_loop
round_data len c acc b t events h e = ground arith

data-Filled :
    (len : ℕ) (acc r b x : Bytes) (events : List Event)
    → ((acc' : Bytes)
        → length acc' ≤ len
        → recv_loop len acc' events ≡ some r
        → Filled len acc' (delivered events) r)
    → length acc < len
    → take (len - length acc) b ≡ x
    → recv_loop len acc (data_ready b ∷ events) ≡ some r
    → Filled len acc (b ++ delivered events) r
data-Filled len acc r b [] events ih less e h = absurd (cc (round_closed len acc b events less e))
data-Filled len acc r b (c ∷ t) events ih less e h =
    let (long, whole) =
      ih (acc ++ c ∷ t)
        (omega (arith, length-append acc (c ∷ t), ap length e, length-take (len - length acc) b))
        (sym (round_data len c acc b t events less e) ∙ h) in
    (
      long,
      whole
          ∙ ap (λ l. take len ((acc ++ l) ++ delivered events)) (sym e)
          ∙ take-partial len acc b (delivered events) (omega arith),
    )

recv_loop-Filled :
    (len : ℕ) (acc r : Bytes) (events : List Event)
    → length acc ≤ len
    → recv_loop len acc events ≡ some r
    → Filled len acc (delivered events) r
unfolding delivered
recv_loop-Filled len acc r [] le h = elim (dec_lt (length acc) len) [
  | yes less ↦ absurd (cc (round_ended len acc less))
  | no ge ↦ full_already len acc [] r le (omega arith) (cc (round_full len acc [] (omega arith)))
]
recv_loop-Filled len acc r (failure ∷ events) le h = elim (dec_lt (length acc) len) [
  | yes less ↦ absurd (cc (round_failed len acc events less))
  | no ge ↦
      full_already len acc [] r le (omega arith)
        (cc (round_full len acc (failure ∷ events) (omega arith)))
]
recv_loop-Filled len acc r (data_ready b ∷ events) le h = elim (dec_lt (length acc) len) [
  | yes less ↦
      data-Filled len acc r b (take (len - length acc) b) events
        (λ acc'. recv_loop-Filled len acc' r events) less refl h
  | no ge ↦
      full_already len acc (b ++ delivered events) r le (omega arith)
        (cc (round_full len acc (data_ready b ∷ events) (omega arith)))
]

-- Behind the headers, at a content length within the limit: a body is returned only whole.
body_of_length-exact :
    (max offset len : ℕ) (buffer bs : Bytes) (events : List Event) (heap : Bool)
    → body_of_length max offset buffer len events ≡ body heap bs
    → (length bs ≡ len) × (len ≤ max) × (bs ≡ take len (drop offset buffer ++ delivered events))
unfolding body_of_length
body_of_length-exact max offset len buffer bs events heap h = elim (ℕ_discrete len 0) [
  | yes e ↦ rw e (ground arith)
  | no ne ↦ ground (
    arith,
    recv_loop-Filled len (drop offset buffer) bs events,
    take-append-of_le len (drop offset buffer) (delivered events),
    length-take len (drop offset buffer),
  )
]

parts :
    (max : ℕ) (buffer bs : Bytes) (events : List Event) (heap : Bool)
    → read_full_body max buffer events ≡ body heap bs
    → (i k : ℕ) × (header_end buffer ≡ some (i, k))
      × (len : ℕ) × (content_length max i (c_str buffer) ≡ length_is len)
      × (body_of_length max (i + k) buffer len events ≡ body heap bs)
unfolding read_full_body body_behind body_of_parsed
parts max buffer bs events heap h = behind (header_end buffer) refl h
  where
    at_length :
        (i k : ℕ) (p : Parsed)
        → header_end buffer ≡ some (i, k)
        → content_length max i (c_str buffer) ≡ p
        → body_of_parsed max (i + k) buffer events p ≡ body heap bs
        → (i k : ℕ) × (header_end buffer ≡ some (i, k))
          × (len : ℕ) × (content_length max i (c_str buffer) ≡ length_is len)
          × (body_of_length max (i + k) buffer len events ≡ body heap bs)
    at_length i k (failed f) e l r = absurd (cc)
    at_length i k (length_is len) e l r = (i, k, e, len, l, r)

    behind :
        (o : Option (ℕ × ℕ))
        → header_end buffer ≡ o
        → body_behind max buffer events o ≡ body heap bs
        → (i k : ℕ) × (header_end buffer ≡ some (i, k))
          × (len : ℕ) × (content_length max i (c_str buffer) ≡ length_is len)
          × (body_of_length max (i + k) buffer len events ≡ body heap bs)
    behind none e r = absurd (cc)
    behind (some (i, k)) e r = at_length i k (content_length max i (c_str buffer)) e refl r

-- A body that `read_full_body` returns is as long as the headers' Content-Length says (0 when there is
-- none), within the limit, and consists of the bytes that follow the headers, first those of the
-- buffer and then those received. A connection that ends or stalls before that gives no body.
pub read_full_body-exact :
    (max : ℕ) (buffer bs : Bytes) (events : List Event) (heap : Bool)
    → read_full_body max buffer events ≡ body heap bs
    → (i k : ℕ) × (header_end buffer ≡ some (i, k))
      × (content_length max i (c_str buffer) ≡ length_is (length bs))
      × (length bs ≤ max)
      × (bs ≡ take (length bs) (drop (i + k) buffer ++ delivered events))
read_full_body-exact max buffer bs events heap h =
    let (i, k, e, len, l, b) = parts max buffer bs events heap h in
    let (long, small, whole) = body_of_length-exact max (i + k) len buffer bs events heap b in
    (i, k, e, l ∙ ap length_is (sym long), rw long small, rw long whole)
