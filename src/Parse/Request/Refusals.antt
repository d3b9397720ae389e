-- ===== src/Parse/Request/Refusals.antt =====
-- Why `parse_request` refuses a request.
use mnet.Base.{ℕ, ◌≡◌, ◌≢◌, ◌⊎◌, All, tokens, ◌||◌, List, none, some, Bytes, take, ◌==◌}
use mnet.Parse.Text.{header_end, cr, lf}
use mnet.Parse.Line.{parse_raw_request}
use mnet.Parse.Length.{too_large, bad_length, duplicate_length, transfer_encoding}
use mnet.Parse.Body.{Event, Body}
use mnet.Parse.Fields.Refused.{IsOver}
use mnet.Parse.Line.Refused.{IsNoLine, method_names}
use mnet.Parse.Body.Refused.{BodyCause}
use mnet.Parse.Request.{
  Code, bad_request, body_too_large, headers_too_large, unsupported_method, bad_content_length,
  duplicate_content_length, unsupported_transfer_encoding,
}

-- The reason for each code: the request line, the method, the headers or the body.
abbrev pub Cause : ℕ → Bytes → List Event → Code → Type 0
Cause max buffer events bad_request = IsNoLine buffer
Cause max buffer events unsupported_method =
    (m path : Bytes) × (parse_raw_request buffer ≡ some (m, path)) × All (λ t. m ≢ t) method_names
Cause max buffer events headers_too_large =
    (i k : ℕ) × (header_end buffer ≡ some (i, k))
    × IsOver 0 (tokens (λ c. c == cr || c == lf) (take i buffer))
Cause max buffer events duplicate_content_length =
    (i k : ℕ) × (header_end buffer ≡ some (i, k)) × BodyCause max buffer events i k duplicate_length
Cause max buffer events unsupported_transfer_encoding =
    (i k : ℕ) × (header_end buffer ≡ some (i, k))
    × BodyCause max buffer events i k transfer_encoding
Cause max buffer events bad_content_length =
    (i k : ℕ) × (header_end buffer ≡ some (i, k)) × BodyCause max buffer events i k bad_length
Cause max buffer events body_too_large =
    (header_end buffer ≡ none)
    ⊎ ((i k : ℕ) × (header_end buffer ≡ some (i, k)) × BodyCause max buffer events i k too_large)
