-- ===== src/RequestAccess/Tests.antt =====
-- Lookups in concrete requests, and the theorems at them.
use mnet.Base.{
  ℕ, ◌≡◌, inr, refl, false, [], ◌∷◌, none, some, arith, codes, str_eq, str_case_eq, to_lower, ◌≢◌,
  span,
}
use mnet.Parse.Line.{get, head}
use mnet.Parse.Request.{Request}
use mnet.Router.{route_match, match_loop, capture, pattern_end, skip_slash, decode_segment}
use mnet.Router.Complete.{ok}
use mnet.App.{Route, App, create, names_from, in_name, register, name_of}
use mnet.Dispatch.{
  method_number, HandlerRequest, attempt, find_loop, or_get, find_route, not_found_answer, call,
  answer_route, dispatch, through,
}
use mnet.Dispatch.Answers.{IsNamed}
use mnet.RequestAccess.{
  value, out_of_range, lookup, lookup_in, lookup_pairs, names_of, values_of, request_param,
  request_header, request_query,
}
use mnet.RequestAccess.Lookup.{Finds, request_param-in_range, request_header-Finds}

-- To dispatch a test unfolds this name.
runs : Unit {0}
unfolding method_number attempt find_loop or_get find_route not_found_answer call answer_route
    dispatch str_eq route_match match_loop capture pattern_end skip_slash decode_segment span ok
    create names_from in_name register name_of
runs = tt

abbrev one : Route ℕ
one = record {
  method = get;
  path = codes "/a/:x";
  handler = 1;
  param_names = codes "x" ∷ [];
  user_data = none;
  path_allocated = false;
}

abbrev two : Route ℕ
two = record one { path = codes "/a/*"; handler = 2; param_names = codes "*" ∷ [] }

abbrev app : App ℕ ℕ
app = record create { routes = one ∷ two ∷ []; route_capacity = 8; middleware = some 9 }

abbrev request : Request
request = record {
  method_text = codes "HEAD";
  method = head;
  path = codes "/a/b/c";
  path_only = codes "/a/b/c";
  query_string = none;
  content = [];
  body_heap = false;
  keep_alive = false;
  query = (codes "q", codes "1") ∷ [];
  headers = (codes "Host", codes "h") ∷ (codes "HOST", codes "i") ∷ [];
  cookies = [];
}

abbrev asked : HandlerRequest
asked = record {
  parsed = request;
  path_param_names = codes "*" ∷ [];
  path_param_values = codes "b/c" ∷ [];
  path_param_count = 1;
  user_data = none;
}

head_by_get : dispatch (λ _. ok) 16 app request ≡ through 9 asked 2
unfolding runs
head_by_get = refl

one-IsNamed : IsNamed one
unfolding runs
one-IsNamed = inr (omega arith, refl)

two-IsNamed : IsNamed two
unfolding runs
two-IsNamed = inr (omega arith, refl)

rest_of_path : request_param asked (some (codes "*")) ≡ value (codes "b/c")
unfolding request_param lookup_in lookup str_eq
rest_of_path = refl

first_host : request_header request (some (codes "host")) ≡ value (codes "h")
unfolding request_header lookup_pairs names_of values_of lookup_in lookup str_case_eq to_lower
first_host = refl

request_param-in_range_example : request_param asked (some (codes "*")) ≢ out_of_range
request_param-in_range_example =
    request_param-in_range 16 app request 2 asked (some (codes "*"))
      (one-IsNamed, (two-IsNamed, tt)) (inr (9, head_by_get)) (omega arith)

request_header-Finds_example :
    Finds str_case_eq (codes "host") request.headers (request_header request (some (codes "host")))
    × Finds str_eq (codes "host") request.query (request_query request (some (codes "host")))
request_header-Finds_example = request_header-Finds request (codes "host")
