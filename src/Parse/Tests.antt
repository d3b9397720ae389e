-- ===== src/Parse/Tests.antt =====
-- Runs of the parser, and its theorems at concrete requests.
use mnet.Base.{
  ℕ, ◌+◌, ◌≤◌, ◌≡◌, refl, true, false, [], ◌∷◌, ◌++◌, some, arith, Bytes, codes, find_sub,
  starts_with, starts_with_case, str_eq, str_case_eq, skip_while, cut_at, tokens, length, take,
  drop, leb, if◌then◌else◌,
}
use mnet.Url.{decode, decode_ex}
use mnet.Header.{has, name_valid}
use mnet.Parse.Text.{c_str, header_end, is_blank}
use mnet.Parse.Line.{post, is_space, word, scan_word, parse_raw_request, parse_method}
use mnet.Parse.Length.{
  line_matches, digits_loop, digit_step, is_digit, at_line_end, parse_length, content_length,
  length_is, failed, duplicate_length, too_large,
}
use mnet.Parse.Length.Value.{value, parse_length_lem}
use mnet.Parse.Body.{
  data_ready, failure, body, no_body, recv_loop, body_of_length, body_of_parsed, body_behind,
  read_full_body,
}
use mnet.Parse.Body.Exact.{delivered, read_full_body-exact}
use mnet.Parse.Fields.{
  parse_headers, header_loop, parse_query_string, query_loop, occurrences, or_empty, decode_own,
  parse_cookies, cookie_loop, is_space_byte,
}
use mnet.Parse.Request.{
  Request, parsed, refused, bad_request, parse_request, with_line, with_method, with_body,
  with_headers, headers_of, assemble, header_effects, query_of, or_none,
}
use mnet.Parse.Request.Safety.{IsSafe, parse_request-IsSafe}

-- To run the parser a test unfolds this name.
runs : Unit {0}
unfolding read_full_body body_behind body_of_parsed body_of_length header_end c_str find_sub
    starts_with content_length line_matches starts_with_case parse_length digits_loop digit_step
    is_digit at_line_end is_blank skip_while recv_loop parse_raw_request has scan_word word is_space
    parse_request with_line with_method with_body with_headers headers_of assemble header_effects
    query_of or_none cut_at str_eq str_case_eq parse_method parse_headers header_loop
    parse_query_string query_loop occurrences or_empty decode_own decode decode_ex tokens name_valid
    parse_cookies cookie_loop is_space_byte
runs = tt

abbrev head : Bytes
head = codes "POST /a?x=1 HTTP/1.1\r\nContent-Length: 3\r\nConnection: keep-alive\r\n\r\n"

abbrev buffer : Bytes
buffer = head ++ codes "abcd"

line_of_buffer : parse_raw_request buffer ≡ some (codes "POST", codes "/a?x=1")
unfolding parse_raw_request header_end c_str find_sub starts_with has scan_word word is_space
    skip_while
line_of_buffer = refl

parse_length_lem_example : parse_length 1000 (codes "  12" ++ codes "\r\n") ≡ (
    if leb (value 0 (codes "12")) 1000 then length_is (value 0 (codes "12")) else failed too_large)
unfolding is_blank is_digit at_line_end
parse_length_lem_example =
    parse_length_lem 1000 b'1' (codes "  ") (codes "2") (codes "\r\n") (omega arith)
      (refl, (refl, tt)) (refl, (refl, tt)) refl

-- Twenty-one digits do not wrap around into the limit.
long_length : parse_length 1000 (codes "18446744073709551617\r\n") ≡ failed too_large
unfolding parse_length digits_loop digit_step is_digit at_line_end is_blank skip_while
long_length = refl

body_of_buffer : read_full_body 1000 buffer [] ≡ body false (codes "abc")
unfolding runs
body_of_buffer = refl

body_received :
    read_full_body 1000 (head ++ codes "a") (data_ready (codes "b") ∷ data_ready (codes "cde") ∷ [])
    ≡ body true (codes "abc")
unfolding runs
body_received = refl

body_cut_off :
    read_full_body 1000 (head ++ codes "a") (data_ready (codes "b") ∷ failure ∷ [])
    ≡ no_body too_large
unfolding runs
body_cut_off = refl

abbrev request : Request
request = record {
  method_text = codes "POST";
  method = post;
  path = codes "/a?x=1";
  path_only = codes "/a";
  query_string = some (codes "x=1");
  content = codes "abc";
  body_heap = false;
  keep_alive = true;
  query = (codes "x", codes "1") ∷ [];
  headers = (codes "Content-Length", codes "3") ∷ (codes "Connection", codes "keep-alive") ∷ [];
  cookies = [];
}

parse_buffer : parse_request 1000 buffer [] ≡ parsed request
unfolding runs
parse_buffer = refl

parse_request-IsSafe_example : IsSafe 1000 buffer [] request
parse_request-IsSafe_example = parse_request-IsSafe 1000 buffer [] request parse_buffer

read_full_body-exact_example :
    (i k : ℕ) × (header_end buffer ≡ some (i, k))
    × (content_length 1000 i (c_str buffer) ≡ length_is (length (codes "abc")))
    × (length (codes "abc") ≤ 1000)
    × (codes "abc" ≡ take (length (codes "abc")) (drop (i + k) buffer ++ delivered []))
read_full_body-exact_example =
    read_full_body-exact 1000 buffer (codes "abc") [] false body_of_buffer

-- A request whose head is the request line alone is refused: no line end stands before the blank line.
no_headers_refused : parse_request 1000 (codes "GET / HTTP/1.0\r\n\r\n") [] ≡ refused bad_request
unfolding runs
no_headers_refused = refl

-- The target may stand on the line behind the method.
target_on_second_line :
    parse_raw_request (codes "GET\r\n/b x\r\n\r\n") ≡ some (codes "GET", codes "/b")
unfolding runs
target_on_second_line = refl

duplicate_refused :
    read_full_body 1000
      (codes "POST / HTTP/1.1\r\nContent-Length: 3\r\ncontent-length: 4\r\n\r\nabcd")
      []
    ≡ no_body duplicate_length
unfolding runs
duplicate_refused = refl

-- Two of five bytes arrive, and then nothing.
abbrev short_buffer : Bytes
short_buffer = codes "POST /a HTTP/1.1\r\nContent-Length: 5\r\n\r\nab"
