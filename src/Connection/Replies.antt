-- ===== src/Connection/Replies.antt =====
-- The order of what is sent on a connection, and the bounds of its buffer.
use mnet.Base.{
  ℕ, ◌+◌, ◌-◌, ◌≤◌, ◌≡◌, refl, Bool, true, false, List, [], ◌∷◌, ◌++◌, Option, none, some, arith,
  Bytes, length, length-append, length-take, take, drop, length-drop_le, ◌⊎◌, find_sub, Bytes, inl,
  inr, leb, if◌then◌else◌,
}
use mnet.Parse.Text.{header_end, c_str, cr, lf}
use mnet.Parse.Body.{Event, data_ready, failure}
use mnet.Parse.Request.{
  Code, unsupported_method, body_too_large, headers_too_large, bad_content_length,
  duplicate_content_length, unsupported_transfer_encoding, bad_request, Outcome, refused, parsed,
  parse_request,
}
use mnet.Parse.Request.Safety.{IsSafe, parse_request-IsSafe}
use mnet.Connection.{
  Turn, Reply, error_page, answer, buffer_room, took, kept, go_on, or_empty_buffer, fill_loop,
  read_headers, error_status, remaining_at, next_buffer, body_limit, respond, give_up,
  handle_client,
}

took-le :
    (buffer t : Bytes) (more : Bytes × Bool)
    → length buffer ≤ buffer_room
    → length (buffer ++ t) ≤ buffer_room
    → length more.0 ≤ buffer_room
    → length (took buffer t more).0 ≤ buffer_room
unfolding took
took-le buffer [] more h ht hm = h
took-le buffer (c ∷ t) more h ht hm = ground arith

fill_loop-le :
    (buffer : Bytes) (events : List Event)
    → length buffer ≤ buffer_room
    → length (fill_loop buffer events).0 ≤ buffer_room
unfolding fill_loop
fill_loop-le buffer [] h = h
fill_loop-le buffer (failure ∷ events) h = h
fill_loop-le buffer (data_ready b ∷ events) h =
    let t = take (buffer_room - length buffer) b in
    let bound : length (buffer ++ t) ≤ buffer_room =
      omega (arith, length-append buffer t, length-take (buffer_room - length buffer) b) in
    let step =
      took-le buffer t (fill_loop (buffer ++ t) events) h bound
        (fill_loop-le (buffer ++ t) events bound) in
    ground arith

read_headers-le :
    (buffer : Bytes) (events : List Event)
    → length buffer ≤ buffer_room
    → length (read_headers buffer events).0 ≤ buffer_room
unfolding read_headers
read_headers-le buffer events h = ground (arith, fill_loop-le buffer events h)

kept-le : (rest : Bytes) (o : Option ℕ) → length (kept rest o) ≤ length rest
unfolding kept
kept-le rest none = omega arith
kept-le rest (some j) = omega arith

remaining_at-le :
    (buffer : Bytes) (o : Option (ℕ × ℕ)) → length (remaining_at buffer o) ≤ length buffer
unfolding remaining_at
remaining_at-le buffer none = omega arith
remaining_at-le buffer (some (i, k)) =
    let rest = drop (i + k) buffer in
    let bound = kept-le rest (find_sub (cr ∷ lf ∷ cr ∷ lf ∷ []) (c_str rest)) in
    ground (arith, length-drop_le (i + k) buffer)

next_buffer-le : (buffer : Bytes) → length (next_buffer buffer) ≤ length buffer
unfolding next_buffer
next_buffer-le buffer = remaining_at-le buffer (header_end buffer)

respond-le :
    (buffer : Bytes) (o : Outcome) → length (or_empty_buffer (respond buffer o).1) ≤ length buffer
unfolding respond or_empty_buffer
respond-le buffer (refused c) = omega arith
respond-le buffer (parsed r) = ground (arith, next_buffer-le buffer)

-- At the end of every round the buffer holds at most `room` bytes.
unfoldable pub Within : ℕ → ℕ → Bytes → List Turn → Type 0
Within room configured buffer [] = Unit
Within room configured buffer (turn ∷ turns) =
    let read = (read_headers buffer turn.header_events).0 in
    let next = (respond read (parse_request (body_limit configured) read turn.body_events)).1 in
    (length read ≤ room) × Within room configured (or_empty_buffer next) turns

-- A connection that starts with at most 8191 bytes in its buffer holds at most 8191 at the end of every
-- round, so that the NUL behind them is within buffer[8192].
pub handle_client-Within :
    (configured : ℕ) (buffer : Bytes) (turns : List Turn)
    → length buffer ≤ buffer_room
    → Within 8191 configured buffer turns
unfolding Within
handle_client-Within configured buffer [] h = tt
handle_client-Within configured buffer (turn ∷ turns) h =
    let (read, _) = read_headers buffer turn.header_events in
    let o = parse_request (body_limit configured) read turn.body_events in
    let bound : length read ≤ buffer_room = read_headers-le buffer turn.header_events h in
    (
      bound,
      handle_client-Within configured (or_empty_buffer (respond read o).1) turns
          (omega (arith, respond-le read o)),
    )

abbrev pub IsErrorStatus : ℕ → Type 0
IsErrorStatus s = (s ≡ 400) ⊎ (s ≡ 405) ⊎ (s ≡ 413) ⊎ (s ≡ 431) ⊎ (s ≡ 501)

-- What is sent on one connection: error pages and safe requests, nothing behind an error page or the
-- answer to a request without keep-alive.
unfoldable pub Served : ℕ → List Reply → Type 0
Served max [] = Unit
Served max (error_page c ∷ rest) = IsErrorStatus (error_status c) × (rest ≡ [])
Served max (answer r ∷ rest) =
    ((b : Bytes) × (events : List Event) × IsSafe max b events r)
    × ((r.keep_alive ≡ true) ⊎ (rest ≡ []))
    × Served max rest

error_status_cases : (c : Code) → IsErrorStatus (error_status c)
unfolding error_status
error_status_cases unsupported_method = inr (inl refl)
error_status_cases body_too_large = inr (inr (inl refl))
error_status_cases bad_content_length = inl refl
error_status_cases duplicate_content_length = inl refl
error_status_cases headers_too_large = inr (inr (inr (inl refl)))
error_status_cases unsupported_transfer_encoding = inr (inr (inr (inr refl)))
error_status_cases bad_request = inl refl

give_up-Served : (max : ℕ) (buffer : Bytes) → Served max (give_up buffer)
unfolding give_up Served
give_up-Served max buffer = rounds (leb buffer_room (length buffer))
  where
    rounds : (b : Bool) → Served max (if b then error_page headers_too_large ∷ [] else [])
    rounds true = (error_status_cases headers_too_large, refl)
    rounds false = tt

served_lem :
    (max : ℕ) (buffer : Bytes) (events : List Event) (o : Outcome) (more : List Reply)
    → parse_request max buffer events ≡ o
    → Served max more
    → Served max (go_on (respond buffer o).0 (respond buffer o).1 more)
unfolding go_on respond Served
served_lem max buffer events (refused c) more h hm = (error_status_cases c, refl)
served_lem max buffer events (parsed r) more h hm = round r.keep_alive refl
  where
    round :
        (k : Bool)
        → r.keep_alive ≡ k
        → Served max (go_on (answer r) (if k then some (next_buffer buffer) else none) more)
    round true e = ((buffer, events, parse_request-IsSafe max buffer events r h), inl e, hm)
    round false e = ((buffer, events, parse_request-IsSafe max buffer events r h), inr refl, tt)

-- On one connection every answered request is safe, an error page carries one of the statuses 400, 405,
-- 413, 431 and 501 and is the last thing sent, and something is sent behind an answer only when its
-- request asked for keep-alive.
pub handle_client-Served :
    (configured : ℕ) (buffer : Bytes) (turns : List Turn)
    → Served (body_limit configured) (handle_client configured buffer turns)
unfolding handle_client Served
handle_client-Served configured buffer [] = tt
handle_client-Served configured buffer (turn ∷ turns) =
    let (read, have_request) = read_headers buffer turn.header_events in
    let max = body_limit configured in
    let o = parse_request max read turn.body_events in
    let (reply, next) = respond read o in
    let more = handle_client configured (or_empty_buffer next) turns in
    either have_request (go_on reply next more) (give_up read)
      (served_lem max read turn.body_events o more refl
        (handle_client-Served configured (or_empty_buffer next) turns))
      (give_up-Served max read)
  where
    either :
        (b : Bool) (x y : List Reply)
        → Served (body_limit configured) x
        → Served (body_limit configured) y
        → Served (body_limit configured) (if b then x else y)
    either true x y hx hy = hx
    either false x y hx hy = hy
