-- ===== src/Response.antt =====
-- src/mnet_dispatch.c: what is sent for a response and for an error.
pub mod Lines
pub mod Framing
pub mod Numbers
pub mod Chunks
mod Tests
use mnet.Base.{
  ℕ, zero, suc, ◌+◌, ◌/◌, ◌%◌, Bool, true, false, ◌&&◌, List, [], ◌∷◌, ◌++◌, Option, none, some,
  ltb, leb, ◌==◌, if◌then◌else◌, Bytes, codes, length, take,
}
use mnet.Header.{value_valid}
use mnet.Parse.Text.{cr, lf}
use mnet.App.{decimal}

-- `mnet_response_t`, with a status that is not negative.
pub record Response : Type 0 where
  pub status : ℕ
  pub content_type : Option Bytes
  pub body : Option Bytes
  pub body_length : ℕ
  pub chunked : Bool

-- The cases of `switch (r->status)`.
abbrev pub reasons : List (ℕ × Bytes)
reasons =
    (200, codes "OK")
    ∷ (201, codes "Created")
    ∷ (204, codes "No Content")
    ∷ (301, codes "Moved Permanently")
    ∷ (302, codes "Found")
    ∷ (400, codes "Bad Request")
    ∷ (401, codes "Unauthorized")
    ∷ (403, codes "Forbidden")
    ∷ (404, codes "Not Found")
    ∷ (405, codes "Method Not Allowed")
    ∷ (413, codes "Payload Too Large")
    ∷ (429, codes "Too Many Requests")
    ∷ (431, codes "Request Header Fields Too Large")
    ∷ (500, codes "Internal Server Error")
    ∷ (503, codes "Service Unavailable")
    ∷ []

unfoldable pub reason_in : List (ℕ × Bytes) → ℕ → Bytes
reason_in [] status = codes "Unknown"
reason_in ((s, text) ∷ more) status =
    let others = reason_in more status in if status == s then text else others

-- `r->content_type ? r->content_type : "application/octet-stream"`
unfoldable pub type_of : Option Bytes → Bytes
type_of none = codes "application/octet-stream"
type_of (some ct) = ct

-- Lines, each ended by "\r\n", and the empty line.
unfoldable pub lines : List Bytes → Bytes
lines [] = cr ∷ lf ∷ []
lines (l ∷ ls) = l ++ cr ∷ lf ∷ lines ls

unfoldable pub connection : Bool → Bytes
connection keep_alive =
    codes "Connection: " ++ (if keep_alive then codes "keep-alive" else codes "close")

-- The text that the two `snprintf` write into header[1024].
unfoldable pub header_lines : Response → Bool → List Bytes
header_lines r keep_alive =
    (codes "HTTP/1.1 " ++ decimal r.status ++ b' ' ∷ reason_in reasons r.status)
    ∷ (if r.chunked
        then codes "Transfer-Encoding: chunked"
        else codes "Content-Length: " ++ decimal r.body_length)
    ∷ (codes "Content-Type: " ++ type_of r.content_type)
    ∷ connection keep_alive
    ∷ []

-- A hexadecimal digit of `%zx`.
unfoldable pub hex_char : ℕ → ℕ
hex_char d = if ltb d 10 then d + b'0' else d + 87

-- `%zx` of a number below the fuel.
unfoldable pub hex_from : ℕ → ℕ → Bytes → Bytes
hex_from zero n tail = tail
hex_from (suc fuel) n tail =
    let more = hex_from fuel (n / 16) (hex_char (n % 16) ∷ tail) in
    if ltb n 16 then hex_char n ∷ tail else more

-- The body as it is sent: `r->body && r->body_length > 0`.
unfoldable pub content : Option Bytes → ℕ → Option Bytes
content none n = none
content (some b) n = if ltb 0 n then some (take n b) else none

-- The chunk of the body, each `mnet_send` on its own, and the last chunk.
unfoldable pub chunks : Option Bytes → ℕ → List Bytes
chunks none n = codes "0\r\n\r\n" ∷ []
chunks (some b) n =
    (hex_from (suc n) n [] ++ cr ∷ lf ∷ []) ∷ b ∷ (cr ∷ lf ∷ []) ∷ codes "0\r\n\r\n" ∷ []

-- Header and body are sent at once when there is a body to send.
unfoldable pub whole : Bytes → Option Bytes → List Bytes
whole header none = header ∷ []
whole header (some b) = (header ++ b) ∷ []

-- `send_response`: what each `mnet_send` gets. (Without memory for the combined text nothing is sent.)
unfoldable pub send_response : Response → Bool → Bool → List Bytes
send_response r head_only keep_alive =
    let header = lines (header_lines r keep_alive) in
    let body = content r.body r.body_length in
    if value_valid (some (type_of r.content_type)) && ltb (length header) 1024
    then (if head_only
        then header ∷ []
        else if r.chunked
        then header ∷ chunks body r.body_length
        else whole header body)
    else []

-- The page of `send_simple_error`, cut to body[256].
unfoldable pub error_body : ℕ → Bytes → Bytes → Bytes
error_body status text message = take 255 (
    codes "<!doctype html><html><head><title>"
    ++ decimal status
    ++ b' ' ∷ text
    ++ codes "</title></head><body><h1>"
    ++ decimal status
    ++ b' ' ∷ text
    ++ codes "</h1><p>"
    ++ message
    ++ codes "</p></body></html>")

unfoldable pub page_lines : ℕ → Bytes → ℕ → Bool → List Bytes
page_lines status text n keep_alive =
    (codes "HTTP/1.1 " ++ decimal status ++ b' ' ∷ text)
    ∷ (codes "Content-Length: " ++ decimal n)
    ∷ codes "Content-Type: text/html; charset=utf-8"
    ∷ connection keep_alive
    ∷ []

-- A page behind its header in header[512], which is sent only when it fits.
unfoldable pub send_page : ℕ → Bytes → Bytes → Bool → List Bytes
send_page status text page keep_alive =
    let header = lines (page_lines status text (length page) keep_alive) in
    if ltb (length header) 512 then header ∷ page ∷ [] else []

unfoldable pub send_simple_error : ℕ → Bytes → Bytes → List Bytes
send_simple_error status text message = send_page status text (error_body status text message) false

unfoldable pub send_not_found : Bool → List Bytes
send_not_found keep_alive =
    send_page 404 (codes "Not Found")
      (codes
        "<!doctype html><html><head><title>404 Not Found</title></head><body><h1>404 Not Found</h1><p>The requested URL was not found on this server.</p></body></html>")
      keep_alive

unfoldable pub send_method_not_allowed : Bool → List Bytes
send_method_not_allowed keep_alive =
    send_page 405 (codes "Method Not Allowed")
      (codes
        "<!doctype html><html><head><title>405 Method Not Allowed</title></head><body><h1>405 Method Not Allowed</h1><p>The method is not allowed for this URL.</p></body></html>")
      keep_alive
