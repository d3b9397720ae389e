-- ===== src/Response/Tests.antt =====
-- Concrete responses, and the theorems at them.
use mnet.Base.{none, length, Bytes, List, ◌≡◌, ◌⊎◌, refl, true, false, [], ◌∷◌, some, codes}
use mnet.Header.{value_valid, value_loop}
use mnet.App.{decimal, digits_from}
use mnet.Response.{
  Response, reason_in, type_of, lines, connection, header_lines, content, chunks, whole, hex_from,
  hex_char, send_response, error_body, page_lines, send_page, send_simple_error,
}
use mnet.Response.Framing.{IsFramed, send_response-IsFramed}
use mnet.Response.Chunks.{read_chunks, joined, read_chunks-send_response}

-- To send a response a test unfolds this name.
runs : Unit {0}
unfolding value_valid value_loop decimal digits_from reason_in type_of lines connection header_lines
    content chunks whole hex_from hex_char send_response error_body page_lines send_page
    send_simple_error
runs = tt

abbrev hello : Response
hello = record {
  status = 200;
  content_type = some (codes "text/plain");
  body = some (codes "hello");
  body_length = 5;
  chunked = false;
}

hello_sent :
    send_response hello false true
    ≡ codes
        "HTTP/1.1 200 OK\r\nContent-Length: 5\r\nContent-Type: text/plain\r\nConnection: keep-alive\r\n\r\nhello"
      ∷ []
unfolding runs
hello_sent = refl

abbrev in_chunks : Response
in_chunks = record hello { chunked = true; status = 599 }

abbrev chunk_header : Bytes
chunk_header =
    codes
      "HTTP/1.1 599 Unknown\r\nTransfer-Encoding: chunked\r\nContent-Type: text/plain\r\nConnection: close\r\n\r\n"

abbrev chunk_texts : List Bytes
chunk_texts = codes "5\r\n" ∷ codes "hello" ∷ codes "\r\n" ∷ codes "0\r\n\r\n" ∷ []

chunks_sent : send_response in_chunks false false ≡ chunk_header ∷ chunk_texts
unfolding runs
chunks_sent = refl

-- A content type that holds a line end is not sent at all.
split_refused :
    send_response (record hello { content_type = some (codes "a\r\nSet-Cookie: b") }) false true
    ≡ []
unfolding runs
split_refused = refl

send_response-IsFramed_example :
    (send_response hello false true ≡ []) ⊎ IsFramed hello false (send_response hello false true)
send_response-IsFramed_example = send_response-IsFramed hello false true

read_chunks-send_response_example :
    ((b : Bytes)
      → content in_chunks.body in_chunks.body_length ≡ some b
      → length b ≡ in_chunks.body_length
      → read_chunks 2 (joined chunk_texts) ≡ some b)
    × (content in_chunks.body in_chunks.body_length ≡ none
        → read_chunks 2 (joined chunk_texts) ≡ some [])
read_chunks-send_response_example =
    read_chunks-send_response in_chunks false chunk_header chunk_texts refl chunks_sent
