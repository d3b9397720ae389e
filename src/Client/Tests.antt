-- ===== src/Client/Tests.antt =====
-- Concrete URLs and responses, and the theorems at them.
use mnet.Base.{
  ◌≡◌, refl, true, false, [], ◌∷◌, map, none, some, arith, Bytes, codes, take, drop, starts_with,
  cut_at, skip_while,
}
use mnet.Header.{value_valid, value_loop}
use mnet.Parse.Line.{is_space}
use mnet.Parse.Length.{is_digit}
use mnet.App.{decimal, digits_from}
use mnet.Response.{
  Response, reason_in, type_of, lines, connection, header_lines, content, chunks, whole, hex_from,
  hex_char, send_response,
}
use mnet.Client.{
  pass, starts_path, ends_host, skip_scheme, digits_value, skip_plus, port_digits, port_in_range,
  port_of, port_and_path, Address, address, url_parse, delivers, receive_loop, atoi, number_behind,
  status_of, behind_blank, response_of, read_response,
}
use mnet.Client.Reading.{read_response-send_response}
use mnet.Client.Bounds.{IsAddress, url_parse-IsAddress}

-- To run the client a test unfolds this name.
runs : Unit {0}
unfolding pass starts_path ends_host skip_scheme digits_value skip_plus port_digits port_in_range
    port_of port_and_path address url_parse receive_loop atoi number_behind status_of behind_blank
    response_of read_response starts_with cut_at skip_while is_space is_digit value_valid value_loop
    decimal digits_from reason_in type_of lines connection header_lines content chunks whole
    send_response
runs = tt

abbrev local : Address
local = record { host = codes "localhost"; port = 8080; path = codes "/a?b" }

local_parsed : url_parse 1024 2048 (some (codes "http://localhost:8080/a?b")) ≡ some local
unfolding runs
local_parsed = refl

-- Without a path the path is empty.
path_missing :
    url_parse 1024 2048 (some (codes "h:80x"))
    ≡ some (record { host = codes "h"; port = 80; path = [] })
unfolding runs
path_missing = refl

abbrev hello : Response
hello = record {
  status = 201;
  content_type = none;
  body = some (codes "hello\r\n\r\n");
  body_length = 9;
  chunked = false;
}

abbrev text : Bytes
text =
    codes
      "HTTP/1.1 201 Created\r\nContent-Length: 9\r\nContent-Type: application/octet-stream\r\nConnection: close\r\n\r\nhello\r\n\r\n"

hello_content : content hello.body hello.body_length ≡ some (codes "hello\r\n\r\n")
unfolding runs
hello_content = refl

hello_sent : send_response hello false false ≡ text ∷ []
unfolding runs
hello_sent = refl

read_response-send_response_example :
    read_response 1000 (map (λ x. delivers x) (take 30 text ∷ drop 30 text ∷ []))
    ≡ some (201, codes "hello\r\n\r\n")
read_response-send_response_example =
    read_response-send_response 1000 hello false (codes "hello\r\n\r\n") text
      (take 30 text ∷ drop 30 text ∷ []) refl hello_content hello_sent (ground arith) refl
      (omega arith)

url_parse-IsAddress_example : IsAddress 1024 2048 local
url_parse-IsAddress_example =
    url_parse-IsAddress 1024 2048 (codes "http://localhost:8080/a?b") local (omega arith)
      (omega arith) local_parsed

-- The client does not decode chunks: of a chunked response of the server it returns the framing too.
chunks_kept :
    read_response 100
      (map (λ t. delivers t) (send_response (record hello { chunked = true }) false false))
    ≡ some (201, codes "9\r\nhello\r\n\r\n\r\n0\r\n\r\n")
unfolding runs hex_from hex_char
chunks_kept = refl
