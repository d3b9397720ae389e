-- ===== src/Serve/Tests.antt =====
-- A server with two routes, run from the bytes of requests to the texts that it sends.
use mnet.Base.{
  ℕ, ◌≡◌, refl, true, false, [], ◌∷◌, none, some, arith, Bytes, codes, find_sub, starts_with,
  starts_with_case, str_eq, str_case_eq, skip_while, cut_at, tokens, span, List,
}
use mnet.Url.{decode, decode_ex}
use mnet.Header.{has, name_valid, value_valid, value_loop}
use mnet.Parse.Text.{c_str, header_end, is_blank}
use mnet.Parse.Line.{get, is_space, word, scan_word, parse_raw_request, parse_method}
use mnet.Parse.Length.{
  line_matches, digits_loop, digit_step, is_digit, at_line_end, parse_length, content_length,
}
use mnet.Parse.Body.{
  data_ready, recv_loop, body_of_length, body_of_parsed, body_behind, read_full_body,
}
use mnet.Parse.Fields.{
  parse_headers, header_loop, parse_query_string, query_loop, occurrences, or_empty, decode_own,
  parse_cookies, cookie_loop, is_space_byte,
}
use mnet.Parse.Request.{
  Request, parse_request, with_line, with_method, with_body, with_headers, headers_of, assemble,
  header_effects, query_of, or_none, code_of,
}
use mnet.Connection.{
  Turn, is_found, complete, took, fill_loop, read_headers, kept, next_buffer, remaining_at,
  body_limit, error_status, respond, give_up, go_on, or_empty_buffer, handle_client,
}
use mnet.Router.{route_match, match_loop, capture, pattern_end, skip_slash, decode_segment}
use mnet.Router.Complete.{ok}
use mnet.App.{App, create, names_from, in_name, register, name_of, decimal, digits_from}
use mnet.Dispatch.{
  method_number, attempt, find_loop, or_get, find_route, not_found_answer, call, answer_route,
  dispatch,
}
use mnet.Response.{
  reason_in, type_of, lines, connection, header_lines, content, chunks, whole, send_response,
  send_page, page_lines, send_simple_error, send_not_found, error_body,
}
use mnet.Client.{
  pass, starts_path, ends_host, skip_scheme, digits_value, skip_plus, port_digits, port_in_range,
  port_of, port_and_path, address, url_parse, receive_loop, atoi, number_behind, status_of,
  behind_blank, response_of, read_response, call_request, call_result, mnet_call,
}
use mnet.Client.Reading.{joined}
use mnet.Serve.{
  Program, refusal_texts, carry_out, is_absent, response_texts, texts_of, all_texts, serve,
}
use mnet.Serve.Loopback.{delivered, request_turn, mnet_call-serve}
use mnet.Handlers.{text_response}

-- To serve a connection a test unfolds this name.
runs : Unit {0}
unfolding call_request call_result read_full_body body_behind body_of_parsed body_of_length
    header_end c_str find_sub starts_with content_length line_matches starts_with_case parse_length
    digits_loop digit_step is_digit at_line_end is_blank skip_while recv_loop parse_raw_request has
    scan_word word is_space parse_request with_line with_method with_body with_headers headers_of
    assemble header_effects query_of or_none cut_at str_eq str_case_eq parse_method parse_headers
    header_loop parse_query_string query_loop occurrences or_empty decode_own decode decode_ex
    tokens name_valid parse_cookies cookie_loop is_space_byte is_found complete took fill_loop
    read_headers kept next_buffer remaining_at body_limit error_status respond give_up go_on
    or_empty_buffer handle_client code_of method_number attempt find_loop or_get find_route
    not_found_answer call answer_route dispatch route_match match_loop capture pattern_end
    skip_slash decode_segment span ok create names_from in_name register name_of pass starts_path
    ends_host skip_scheme digits_value skip_plus port_digits port_in_range port_of port_and_path
    address url_parse receive_loop atoi number_behind status_of behind_blank response_of
    read_response value_valid value_loop decimal digits_from reason_in type_of lines connection
    header_lines content chunks whole send_response carry_out is_absent response_texts texts_of
    all_texts serve text_response refusal_texts send_page page_lines send_simple_error
    send_not_found error_body
runs = tt

-- /a/:x answers its parameter.
abbrev app : App ℕ ℕ
app = record create {
  routes =
      record {
        method = get;
        path = codes "/a/:x";
        handler = 1;
        param_names = codes "x" ∷ [];
        user_data = none;
        path_allocated = false;
      }
      ∷ [];
  route_capacity = 8;
}

abbrev program : Program ℕ ℕ
unfolding text_response
program = record {
  run_handler = λ h req. text_response 200 (codes "text/plain") (joined req.path_param_values);
  run_middleware = λ m req h. text_response 500 (codes "text/plain") [];
  run_not_found = λ h method path. text_response 404 (codes "text/plain") [];
  welcome_page = text_response 200 (codes "text/html") [];
}

abbrev bytes_turn : Bytes → Turn
bytes_turn b = record { header_events = data_ready b ∷ []; body_events = [] }

abbrev turns : List Turn
turns =
    bytes_turn (codes "GET /a/hi HTTP/1.1\r\nConnection: keep-alive\r\n\r\n")
    ∷ bytes_turn (codes "GET /b HTTP/1.1\r\nConnection: close\r\n\r\n")
    ∷ bytes_turn (codes "GET /a/x HTTP/1.1\r\n\r\n")
    ∷ []

abbrev sent : Bytes
sent =
    codes
      "HTTP/1.1 200 OK\r\nContent-Length: 2\r\nContent-Type: text/plain\r\nConnection: keep-alive\r\n\r\nhi"

-- The second request asks for the end of the connection, so the third is not answered.
served : serve program app (λ _. λ _. ok) turns ≡ (sent ∷ []) ∷ send_not_found false ∷ []
unfolding runs
served = refl

abbrev request : Request
request = record {
  method_text = codes "GET";
  method = get;
  path = codes "/a/hi";
  path_only = codes "/a/hi";
  query_string = none;
  content = [];
  body_heap = false;
  keep_alive = true;
  query = [];
  headers = (codes "Connection", codes "keep-alive") ∷ [];
  cookies = [];
}

abbrev called : Bytes
called =
    codes
      "GET /a/hi HTTP/1.1\r\nHost: localhost\r\nUser-Agent: mnet/0.2.5\r\nAccept: */*\r\nConnection: close\r\n\r\n"

abbrev call_sent : Bytes
call_sent =
    codes
      "HTTP/1.1 200 OK\r\nContent-Length: 2\r\nContent-Type: text/plain\r\nConnection: close\r\n\r\nhi"

abbrev call_parsed : Request
call_parsed = record request {
  keep_alive = false;
  headers =
      (codes "Host", codes "localhost")
      ∷ (codes "User-Agent", codes "mnet/0.2.5")
      ∷ (codes "Accept", codes "*/*")
      ∷ (codes "Connection", codes "close")
      ∷ [];
}

mnet_call-serve_example :
    mnet_call
      (λ x. true)
      (λ x sent'. some (delivered (serve program app (λ _. λ _. ok) (request_turn sent' ∷ []))))
      (some (codes "http://localhost:8080/a/hi"))
    ≡ some (codes "hi")
unfolding runs
mnet_call-serve_example =
    mnet_call-serve program app (λ _. λ _. ok) (codes "http://localhost:8080/a/hi")
      (record { host = codes "localhost"; port = 8080; path = codes "/a/hi" }) called call_parsed
      (text_response 200 (codes "text/plain") (codes "hi")) (codes "hi") call_sent refl refl
      (omega arith) (omega arith) refl refl (omega arith) refl refl refl refl (omega arith)
