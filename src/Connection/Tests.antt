-- ===== src/Connection/Tests.antt =====
-- Runs of connections, and the theorems on them at concrete ones.
use mnet.Base.{
  ◌≡◌, refl, true, false, [], ◌∷◌, ◌++◌, none, arith, Bytes, codes, find_sub, starts_with,
  starts_with_case, str_eq, str_case_eq, skip_while, cut_at, tokens,
}
use mnet.Url.{decode, decode_ex}
use mnet.Header.{has, name_valid}
use mnet.Parse.Text.{c_str, header_end, is_blank}
use mnet.Parse.Line.{get, post, is_space, word, scan_word, parse_raw_request, parse_method}
use mnet.Parse.Length.{
  line_matches, digits_loop, digit_step, is_digit, at_line_end, parse_length, content_length,
}
use mnet.Parse.Body.{
  data_ready, recv_loop, body_of_length, body_of_parsed, body_behind, read_full_body,
}
use mnet.Parse.Fields.{
  parse_headers, header_loop, parse_query_string, query_loop, occurrences, or_empty, decode_own,
  parse_cookies, cookie_loop, is_space_byte,
}
use mnet.Parse.Request.{
  body_too_large, Request, parse_request, with_line, with_method, with_body, with_headers,
  headers_of, assemble, header_effects, query_of, or_none, code_of,
}
use mnet.Connection.{
  Turn, error_page, answer, is_found, complete, took, fill_loop, read_headers, kept, next_buffer,
  remaining_at, body_limit, error_status, respond, give_up, go_on, or_empty_buffer, handle_client,
}
use mnet.Connection.Replies.{Within, Served, handle_client-Within, handle_client-Served}

-- To run a connection a test unfolds this name.
runs : Unit {0}
unfolding read_full_body body_behind body_of_parsed body_of_length header_end c_str find_sub
    starts_with content_length line_matches starts_with_case parse_length digits_loop digit_step
    is_digit at_line_end is_blank skip_while recv_loop parse_raw_request has scan_word word is_space
    parse_request with_line with_method with_body with_headers headers_of assemble header_effects
    query_of or_none cut_at str_eq str_case_eq parse_method parse_headers header_loop
    parse_query_string query_loop occurrences or_empty decode_own decode decode_ex tokens name_valid
    parse_cookies cookie_loop is_space_byte is_found complete took fill_loop read_headers kept
    next_buffer remaining_at body_limit error_status respond give_up go_on or_empty_buffer
    handle_client code_of
runs = tt

abbrev head : Bytes
head = codes "POST /a HTTP/1.1\r\nContent-Length: 15\r\nConnection: keep-alive\r\n\r\n"

-- The body of the first request has the form of a request.
abbrev hidden : Bytes
hidden = codes "GET /b x\n\r\n\r\n.."

abbrev turn : Turn
turn = record { header_events = []; body_events = [] }

abbrev first : Request
first = record {
  method_text = codes "POST";
  method = post;
  path = codes "/a";
  path_only = codes "/a";
  query_string = none;
  content = hidden;
  body_heap = false;
  keep_alive = true;
  query = [];
  headers = (codes "Content-Length", codes "15") ∷ (codes "Connection", codes "keep-alive") ∷ [];
  cookies = [];
}

abbrev second : Request
second = record {
  method_text = codes "GET";
  method = get;
  path = codes "/b";
  path_only = codes "/b";
  query_string = none;
  content = [];
  body_heap = false;
  keep_alive = false;
  query = [];
  headers = [];
  cookies = [];
}

-- One request is sent, and two are answered.
hidden_request :
    handle_client 0 (head ++ hidden) (turn ∷ turn ∷ []) ≡ answer first ∷ answer second ∷ []
unfolding runs
hidden_request = refl

-- The headers come in two reads; the second request is too long for its buffer.
refused_body :
    handle_client 10 [] (
      record {
        header_events =
            data_ready (codes "POST / HTTP/1.1\r\n")
            ∷ data_ready (codes "Content-Length: 11\r\n\r\n")
            ∷ [];
        body_events = [];
      }
      ∷ [])
    ≡ error_page body_too_large ∷ []
unfolding runs
refused_body = refl

handle_client-Within_example : Within 8191 0 (head ++ hidden) (turn ∷ turn ∷ [])
handle_client-Within_example =
    handle_client-Within 0 (head ++ hidden) (turn ∷ turn ∷ []) (omega arith)

handle_client-Served_example :
    Served (body_limit 0) (handle_client 0 (head ++ hidden) (turn ∷ turn ∷ []))
handle_client-Served_example = handle_client-Served 0 (head ++ hidden) (turn ∷ turn ∷ [])
