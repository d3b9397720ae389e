-- ===== src/Serve.antt =====
-- src/mnet_server.c, `mnet_handle_client`, from the request to the texts that are sent: the error page of a
-- refusal, or the response of what `dispatch` chose. The user's handlers are parameters.
pub mod Announced
pub mod EndToEnd
pub mod Arrival
pub mod Loopback
mod Tests
use mnet.Base.{
  ℕ, suc, Bool, true, false, ◌&&◌, List, [], ◌∷◌, Option, none, some, ◌==◌, if◌then◌else◌, Bytes,
  codes,
}
use mnet.Limits.{max_params}
use mnet.Parse.Line.{head}
use mnet.Parse.Request.{
  Code, bad_request, body_too_large, headers_too_large, unsupported_method, bad_content_length,
  duplicate_content_length, unsupported_transfer_encoding, Request,
}
use mnet.Connection.{Turn, Reply, error_page, answer, handle_client}
use mnet.App.{App}
use mnet.Dispatch.{
  Answer, HandlerRequest, welcome, plain_404, not_found_by, empty, through, handled, method_number,
  dispatch,
}
use mnet.Response.{
  Response, send_response, send_simple_error, send_not_found, send_method_not_allowed,
}
use mnet.Handlers.{empty_response, status_response}

-- What is sent for each outcome of `parse_request` but a request.
unfoldable pub refusal_texts : Code → List Bytes
refusal_texts unsupported_method = send_method_not_allowed false
refusal_texts body_too_large =
    send_simple_error 413 (codes "Payload Too Large")
      (codes "Request body exceeds the maximum size.")
refusal_texts bad_content_length =
    send_simple_error 400 (codes "Bad Request") (codes "The Content-Length header is malformed.")
refusal_texts duplicate_content_length =
    send_simple_error 400 (codes "Bad Request") (codes "Duplicate Content-Length headers.")
refusal_texts headers_too_large =
    send_simple_error 431 (codes "Request Header Fields Too Large")
      (codes "Request headers exceed the maximum size.")
refusal_texts unsupported_transfer_encoding =
    send_simple_error 501 (codes "Not Implemented") (codes "Transfer-Encoding is not supported.")
refusal_texts bad_request =
    send_simple_error 400 (codes "Bad Request") (codes "The request could not be parsed.")

-- The user's code, and the welcome page.
pub record Program (H M : Type 0) : Type 0 where
  pub run_handler : H → HandlerRequest → Response
  pub run_middleware : M → HandlerRequest → H → Response
  pub run_not_found : H → Bytes → Bytes → Response
  pub welcome_page : Response

unfoldable pub is_absent : {H : Type 0} → Option H → Bool
is_absent none = true
is_absent (some h) = false

module _ {H M : Type 0} where
  -- The value that `dispatch` returns.
  unfoldable pub carry_out : Program H M → Answer H M → Response
  carry_out program welcome = program.welcome_page
  carry_out program plain_404 = status_response 404 (some (codes "not found"))
  carry_out program (not_found_by h method path) = program.run_not_found h method path
  carry_out program empty = empty_response
  carry_out program (through m req h) = program.run_middleware m req h
  carry_out program (handled h req) = program.run_handler h req

  -- `if (response.status == 0 && app->not_found_handler == NULL)`
  unfoldable pub response_texts : App H M → Request → Response → List Bytes
  response_texts app r response =
      if response.status == 0 && is_absent app.not_found_handler
      then send_not_found r.keep_alive
      else send_response response (method_number r.method == method_number head) r.keep_alive

  -- `alloc` are the allocations of `dispatch`.
  unfoldable pub texts_of : Program H M → App H M → (ℕ → ℕ → Bool) → Reply → List Bytes
  texts_of program app alloc (error_page c) = refusal_texts c
  texts_of program app alloc (answer r) =
      response_texts app r (carry_out program (dispatch alloc max_params app r))

  -- The replies of one connection, with what each `mnet_send` gets; `allocs n` belongs to the n-th reply.
  unfoldable pub all_texts :
      Program H M → App H M → (ℕ → ℕ → ℕ → Bool) → ℕ → List Reply → List (List Bytes)
  all_texts program app allocs n [] = []
  all_texts program app allocs n (reply ∷ replies) =
      texts_of program app (allocs n) reply ∷ all_texts program app allocs (suc n) replies

  unfoldable pub serve : Program H M → App H M → (ℕ → ℕ → ℕ → Bool) → List Turn → List (List Bytes)
  serve program app allocs turns =
      all_texts program app allocs 0 (handle_client app.max_body_size [] turns)
