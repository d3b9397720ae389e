-- ===== src/Connection.antt =====
-- src/mnet_server.c, `mnet_handle_client`: the life of one connection.
pub mod Replies
mod Tests
use mnet.Base.{
  ℕ, suc, ◌+◌, ◌-◌, Bool, true, false, ◌&&◌, List, [], ◌∷◌, ◌++◌, Option, none, some, ltb, leb,
  ◌==◌, if◌then◌else◌, Bytes, find_sub, length, take, drop,
}
use mnet.Limits.{request_buffer_size, max_body_size}
use mnet.Parse.Text.{c_str, header_end, cr, lf}
use mnet.Parse.Body.{Event, data_ready, failure}
use mnet.Parse.Request.{
  Code, bad_request, body_too_large, headers_too_large, unsupported_method, bad_content_length,
  duplicate_content_length, unsupported_transfer_encoding, Request, Outcome, refused, parsed,
  parse_request,
}

-- What the network does during one round of the outer loop: while the headers are read, and while the
-- rest of the body is.
pub record Turn : Type 0 where
  pub header_events : List Event
  pub body_events : List Event

-- What is sent: the error page of a refusal, or the answer to a request.
pub data Reply : Type 0 where
  error_page : Code → Reply
  answer : Request → Reply

-- sizeof(buffer) - 1
abbrev pub buffer_room : ℕ
buffer_room = request_buffer_size - 1

unfoldable pub is_found : Option (ℕ × ℕ) → Bool
is_found none = false
is_found (some _) = true

-- strstr(buffer, "\r\n\r\n") != NULL || strstr(buffer, "\n\n") != NULL
unfoldable pub complete : Bytes → Bool
complete buffer = is_found (header_end buffer)

abbrev pub blank_line : Bytes
blank_line = cr ∷ lf ∷ cr ∷ lf ∷ []

-- Behind one `mnet_recv`: nothing came, or the buffer is complete, or the loop goes on with `more`.
unfoldable pub took : Bytes → Bytes → Bytes × Bool → Bytes × Bool
took buffer [] more = (buffer, false)
took buffer (c ∷ t) more = if complete (buffer ++ c ∷ t) then (buffer ++ c ∷ t, true) else more

-- The inner loop, with buffer[0..used); the flag is have_request.
unfoldable pub fill_loop : Bytes → List Event → Bytes × Bool
fill_loop buffer [] = (buffer, false)
fill_loop buffer (failure ∷ events) = (buffer, false)
fill_loop buffer (data_ready b ∷ events) =
    let t = take (buffer_room - length buffer) b in
    let more = fill_loop (buffer ++ t) events in
    if ltb (length buffer) buffer_room then took buffer t more else (buffer, false)

-- A complete request may be in the buffer already.
unfoldable pub read_headers : Bytes → List Event → Bytes × Bool
read_headers buffer events =
    if ltb 0 (length buffer) && complete buffer then (buffer, true) else fill_loop buffer events

-- The status of the error page for each outcome of `parse_request`.
unfoldable pub error_status : Code → ℕ
error_status unsupported_method = 405
error_status body_too_large = 413
error_status bad_content_length = 400
error_status duplicate_content_length = 400
error_status headers_too_large = 431
error_status unsupported_transfer_encoding = 501
error_status bad_request = 400

-- The buffer for the next round of a kept connection: what stands behind the headers, when it holds a
-- "\r\n\r\n", and nothing otherwise.
unfoldable pub kept : Bytes → Option ℕ → Bytes
kept rest none = []
kept rest (some _) = rest

unfoldable pub remaining_at : Bytes → Option (ℕ × ℕ) → Bytes
remaining_at buffer none = []
remaining_at buffer (some (i, k)) =
    let rest = drop (i + k) buffer in
    if ltb (i + k) (length buffer) then kept rest (find_sub blank_line (c_str rest)) else []

unfoldable pub next_buffer : Bytes → Bytes
next_buffer buffer = remaining_at buffer (header_end buffer)

-- `app->max_body_size > 0 ? app->max_body_size : MNET_MAX_BODY_SIZE`
unfoldable pub body_limit : ℕ → ℕ
body_limit configured = if ltb 0 configured then configured else max_body_size

-- A parsed or refused request: what is sent, and the buffer of the next round if there is one.
unfoldable pub respond : Bytes → Outcome → Reply × Option Bytes
respond buffer (refused c) = (error_page c, none)
respond buffer (parsed r) = (answer r, (if r.keep_alive then some (next_buffer buffer) else none))

-- What is sent when no request could be read: the page that a refusal of the headers has too.
unfoldable pub give_up : Bytes → List Reply
give_up buffer = if leb buffer_room (length buffer) then error_page headers_too_large ∷ [] else []

-- Behind a complete request: its reply, and `more` if the connection is kept.
unfoldable pub go_on : Reply → Option Bytes → List Reply → List Reply
go_on reply none more = reply ∷ []
go_on reply (some rest) more = reply ∷ more

unfoldable pub or_empty_buffer : Option Bytes → Bytes
or_empty_buffer none = []
or_empty_buffer (some rest) = rest

-- The outer loop. Each round takes one turn of the network; the connection ends when they run out.
unfoldable pub handle_client : ℕ → Bytes → List Turn → List Reply
handle_client configured buffer [] = []
handle_client configured buffer (turn ∷ turns) =
    let (read, have_request) = read_headers buffer turn.header_events in
    let (reply, next) =
      respond read (parse_request (body_limit configured) read turn.body_events) in
    let served = go_on reply next (handle_client configured (or_empty_buffer next) turns) in
    if have_request then served else give_up read
