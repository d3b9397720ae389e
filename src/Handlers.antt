-- ===== src/Handlers.antt =====
-- src/mnet_handlers.c, the static files, and the constructors of responses of src/mnet_response.c. What
-- the file system answers is a parameter: `realpath`, and `read_file` for fopen, ftell and fread.
pub mod Containment
pub mod Welcome
pub mod Page
mod Tests
use mnet.Base.{
  ℕ, zero, suc, ◌+◌, Bool, true, false, ◌&&◌, ◌||◌, List, [], ◌∷◌, ◌++◌, Option, none, some, leb,
  ◌==◌, if◌then◌else◌, Bytes, codes, length, drop, starts_with, str_case_eq,
}
use mnet.Router.{skip_slash}
use mnet.Response.{Response}

-- `r.status = 0` and no body: `(mnet_response_t){0}`
abbrev pub empty_response : Response
empty_response = record {
  status = 0;
  content_type = none;
  body = none;
  body_length = 0;
  chunked = false;
}

unfoldable pub text_response : ℕ → Bytes → Bytes → Response
text_response status content_type text = record {
  status = status;
  content_type = some content_type;
  body = some text;
  body_length = length text;
  chunked = false;
}

-- `mnet_text`, `mnet_html` and `mnet_json`; a NULL text gives an empty response.
unfoldable pub response_or_empty : Bytes → Option Bytes → Response
response_or_empty content_type none = empty_response
response_or_empty content_type (some text) = text_response 200 content_type text

unfoldable pub text_of : Option Bytes → Response
text_of text = response_or_empty (codes "text/plain; charset=utf-8") text

unfoldable pub html_of : Option Bytes → Response
html_of html = response_or_empty (codes "text/html; charset=utf-8") html

unfoldable pub json_of : Option Bytes → Response
json_of json = response_or_empty (codes "application/json") json

-- `mnet_error` and `mnet_status`; NULL stands for "".
unfoldable pub status_response : ℕ → Option Bytes → Response
status_response status none = text_response status (codes "text/plain; charset=utf-8") []
status_response status (some text) = text_response status (codes "text/plain; charset=utf-8") text

-- `mnet_chunked`
unfoldable pub chunked_response : ℕ → Option Bytes → Option Bytes → ℕ → Response
chunked_response status none body n = record {
  status = status;
  content_type = some (codes "application/octet-stream");
  body = body;
  body_length = n;
  chunked = true;
}
chunked_response status (some ct) body n = record {
  status = status;
  content_type = some ct;
  body = body;
  body_length = n;
  chunked = true;
}

-- `strrchr(s, b) + 1`; `last` is what stands behind the last b so far.
unfoldable pub behind_last : ℕ → Option Bytes → Bytes → Option Bytes
behind_last b last [] = last
behind_last b last (c ∷ s) = behind_last b (if c == b then some s else last) s

-- The tests of `mime_type`, in their order.
abbrev pub mime_types : List (Bytes × Bytes)
mime_types =
    (codes "html", codes "text/html")
    ∷ (codes "htm", codes "text/html")
    ∷ (codes "css", codes "text/css")
    ∷ (codes "js", codes "application/javascript")
    ∷ (codes "json", codes "application/json")
    ∷ (codes "png", codes "image/png")
    ∷ (codes "jpg", codes "image/jpeg")
    ∷ (codes "jpeg", codes "image/jpeg")
    ∷ (codes "gif", codes "image/gif")
    ∷ (codes "svg", codes "image/svg+xml")
    ∷ (codes "ico", codes "image/x-icon")
    ∷ (codes "txt", codes "text/plain")
    ∷ (codes "xml", codes "application/xml")
    ∷ (codes "pdf", codes "application/pdf")
    ∷ []

unfoldable pub type_in : List (Bytes × Bytes) → Option Bytes → Bytes
type_in types none = codes "application/octet-stream"
type_in [] (some dot) = codes "application/octet-stream"
type_in ((extension, ct) ∷ types) (some dot) =
    let others = type_in types (some dot) in if str_case_eq dot extension then ct else others

unfoldable pub mime_type : Bytes → Bytes
mime_type path = type_in mime_types (behind_last b'.' none path)

unfoldable pub ends_with : ℕ → Bytes → Bool
ends_with b [] = false
ends_with b (c ∷ []) = c == b
ends_with b (c ∷ d ∷ s) = ends_with b (d ∷ s)

-- `real[base_len] == '\0' || real[base_len] == '/'`
unfoldable pub at_boundary : Bytes → Bool
at_boundary [] = true
at_boundary (c ∷ s) = c == b'/'

-- The resolved path is the root or lies below it.
unfoldable pub inside : Bytes → Bytes → Bool
inside base real =
    starts_with base real && (at_boundary (drop (length base) real) || ends_with b'/' base)

unfoldable pub not_found : Response
not_found = status_response 404 (some (codes "not found"))

-- `dir`, a slash and what follows the prefix of the URL; the route's pattern lets only paths below
-- the prefix through.
unfoldable pub path_below : Bytes → Bytes → Bytes → Bytes
path_below url_prefix dir url_path = dir ++ b'/' ∷ skip_slash (drop (length url_prefix) url_path)

module _ (realpath read_file : Bytes → Option Bytes) where
  unfoldable pub serve : Bytes → Option Bytes → Response
  serve fs_path none = not_found
  serve fs_path (some content) = text_response 200 (mime_type fs_path) content

  unfoldable pub serve_inside : Bytes → Option Bytes → Option Bytes → Response
  serve_inside fs_path none base = not_found
  serve_inside fs_path (some real) none = not_found
  serve_inside fs_path (some real) (some base) =
      if inside base real
      then serve fs_path (read_file real)
      else status_response 403 (some (codes "forbidden"))

  -- `static_handler` on req->user_data and req->path. (Without memory for the file it answers 500.)
  unfoldable pub static_handler : Option (Bytes × Bytes) → Bytes → Response
  static_handler none url_path = status_response 500 (some (codes "internal server error"))
  static_handler (some (url_prefix, dir)) url_path =
      let fs_path = path_below url_prefix dir url_path in
      if leb 4096 (length fs_path)
      then not_found
      else serve_inside fs_path (realpath fs_path) (realpath dir)
