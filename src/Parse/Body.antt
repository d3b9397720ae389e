-- ===== src/Parse/Body.antt =====
-- src/mnet_parse.c, `read_full_body`: locating the body and reading what is missing of it.
pub mod Exact
pub mod Refused
use mnet.Base.{
  ℕ, suc, ◌+◌, ◌-◌, Bool, true, false, List, [], ◌∷◌, ◌++◌, Option, none, some, ltb, leb, ◌==◌,
  if◌then◌else◌, Bytes, length, take, drop,
}
use mnet.Parse.Text.{c_str, header_end}
use mnet.Parse.Length.{Failure, too_large, Parsed, failed, length_is, content_length}

-- What one round of the receive loop meets: mnet_recv has these bytes to deliver, or the deadline has
-- passed, mnet_poll reports no data, or mnet_recv fails.
pub data Event : Type 0 where
  data_ready : Bytes → Event
  failure : Event

-- `while (total_received < content_length)`, with full_body[0..total_received). An empty read is the
-- end of the connection. When the events run out the deadline passes.
unfoldable pub recv_loop : ℕ → Bytes → List Event → Option Bytes
recv_loop len full_body [] = if leb len (length full_body) then some full_body else none
recv_loop len full_body (e ∷ events) =
    let more : Option Bytes = elim e [
      | failure ↦ none
      | data_ready b ↦ elim (take (len - length full_body) b) [
        | [] ↦ none
        | c ∷ t ↦ recv_loop len (full_body ++ c ∷ t) events
      ]
    ] in
    if leb len (length full_body) then some full_body else more

-- The result of `read_full_body`: *body_heap and the body.
pub data Body : Type 0 where
  no_body : Failure → Body
  body : Bool → Bytes → Body

-- Behind the headers, at a content length: `offset` is body_offset.
unfoldable pub body_of_length : ℕ → ℕ → Bytes → ℕ → List Event → Body
body_of_length max offset buffer len events =
    let initial = drop offset buffer in
    let received : Body = elim (recv_loop len initial events) [
      | none ↦ no_body too_large
      | some full_body ↦ body true full_body
    ] in
    if len == 0
    then body false []
    else if ltb max len
    then no_body too_large
    else if leb len (length initial)
    then body false (take len initial)
    else received

-- The error code that the headers give, or the body at their length.
unfoldable pub body_of_parsed : ℕ → ℕ → Bytes → List Event → Parsed → Body
body_of_parsed max offset buffer events (failed f) = no_body f
body_of_parsed max offset buffer events (length_is len) =
    body_of_length max offset buffer len events

unfoldable pub body_behind : ℕ → Bytes → List Event → Option (ℕ × ℕ) → Body
body_behind max buffer events none = no_body too_large
body_behind max buffer events (some (i, k)) =
    body_of_parsed max (i + k) buffer events (content_length max i (c_str buffer))

-- `read_full_body` on the bytes received so far. (A failed allocation answers -1 too.)
unfoldable pub read_full_body : ℕ → Bytes → List Event → Body
read_full_body max buffer events = body_behind max buffer events (header_end buffer)
