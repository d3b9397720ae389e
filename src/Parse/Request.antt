-- ===== src/Parse/Request.antt =====
-- src/mnet_parse.c, `parse_request`: the parts put together.
pub mod Safety
pub mod Refusals
use mnet.Base.{
  ℕ, suc, Bool, true, false, ◌||◌, ◌&&◌, List, [], ◌∷◌, Option, none, some, if◌then◌else◌, Bytes,
  codes, cut_at, str_case_eq, take,
}
use mnet.Parse.Text.{header_end}
use mnet.Parse.Line.{Method, parse_raw_request, parse_method}
use mnet.Parse.Length.{Failure, too_large, bad_length, duplicate_length, transfer_encoding}
use mnet.Parse.Body.{Event, Body, no_body, body, read_full_body}
use mnet.Parse.Fields.{Pair, parse_headers, parse_cookies, parse_query_string}

-- `MNET_PARSE_*` but MNET_PARSE_OK
pub data Code : Type 0 where
  bad_request body_too_large headers_too_large unsupported_method : Code
  bad_content_length duplicate_content_length unsupported_transfer_encoding : Code

-- `parsed_request_t`
pub record Request : Type 0 where
  pub method_text : Bytes
  pub method : Method
  pub path : Bytes
  pub path_only : Bytes
  pub query_string : Option Bytes
  pub content : Bytes
  pub body_heap : Bool
  pub keep_alive : Bool
  pub query : List Pair
  pub headers : List Pair
  pub cookies : List Pair

pub data Outcome : Type 0 where
  refused : Code → Outcome
  parsed : Request → Outcome

unfoldable pub code_of : Failure → Code
code_of too_large = body_too_large
code_of bad_length = bad_content_length
code_of duplicate_length = duplicate_content_length
code_of transfer_encoding = unsupported_transfer_encoding

-- The loop over the headers: a Cookie header replaces the cookies, and `Connection: keep-alive` sets
-- the flag.
unfoldable pub header_effects : List Pair → List Pair → Bool → List Pair × Bool
header_effects [] cookies keep_alive = (cookies, keep_alive)
header_effects ((name, value) ∷ hs) cookies keep_alive =
    header_effects hs (if str_case_eq name (codes "Cookie") then parse_cookies value else cookies) (
      keep_alive
      || (str_case_eq name (codes "Connection") && str_case_eq value (codes "keep-alive")))

unfoldable pub or_none : Option (List Pair) → List Pair
or_none none = []
or_none (some ps) = ps

-- The parameters of a query string, when there is one; a refused query string leaves none.
unfoldable pub query_of : Option Bytes → List Pair
query_of none = []
query_of (some qs) = or_none (parse_query_string qs)

-- `out`, from what the parts have found.
unfoldable pub assemble : Bytes → Method → Bytes → Bool → Bytes → List Pair → Request
assemble method_text method path heap content headers =
    let (cookies, keep_alive) = header_effects headers [] false in
    let (path_only, query_string) = cut_at b'?' path in
    record {
      method_text = method_text;
      method = method;
      path = path;
      path_only = path_only;
      query_string = query_string;
      content = content;
      body_heap = heap;
      keep_alive = keep_alive;
      query = query_of query_string;
      headers = headers;
      cookies = cookies;
    }

-- `parse_headers` on the header section. No blank line leaves the headers out.
unfoldable pub headers_of : Bytes → Option (ℕ × ℕ) → Option (List Pair)
headers_of buffer none = some []
headers_of buffer (some (i, k)) = parse_headers (take i buffer)

unfoldable pub with_headers : Bytes → Method → Bytes → Bool → Bytes → Option (List Pair) → Outcome
with_headers method_text method path heap content none = refused headers_too_large
with_headers method_text method path heap content (some headers) =
    parsed (assemble method_text method path heap content headers)

unfoldable pub with_body : Bytes → Bytes → Method → Bytes → Body → Outcome
with_body buffer method_text method path (no_body f) = refused (code_of f)
with_body buffer method_text method path (body heap content) =
    with_headers method_text method path heap content (headers_of buffer (header_end buffer))

unfoldable pub with_method : ℕ → Bytes → List Event → Bytes → Bytes → Option Method → Outcome
with_method max buffer events method_text path none = refused unsupported_method
with_method max buffer events method_text path (some method) =
    with_body buffer method_text method path (read_full_body max buffer events)

unfoldable pub with_line : ℕ → Bytes → List Event → Option (Bytes × Bytes) → Outcome
with_line max buffer events none = refused bad_request
with_line max buffer events (some (method_text, path)) =
    with_method max buffer events method_text path (parse_method method_text)

unfoldable pub parse_request : ℕ → Bytes → List Event → Outcome
parse_request max buffer events = with_line max buffer events (parse_raw_request buffer)
