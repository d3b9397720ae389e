-- ===== src/Dispatch/Tests.antt =====
-- Dispatching concrete requests, and the theorems at them.
use mnet.Base.{ℕ, ◌≡◌, inr, refl, false, [], ◌∷◌, none, some, arith, codes, str_eq, span}
use mnet.Parse.Line.{get, head}
use mnet.Parse.Request.{Request}
use mnet.Router.{route_match, match_loop, capture, pattern_end, skip_slash, decode_segment}
use mnet.Router.Complete.{ok}
use mnet.App.{Route, App, create, names_from, in_name, register, name_of}
use mnet.Dispatch.{
  method_number, attempt, find_loop, or_get, find_route, not_found_answer, call, answer_route,
  dispatch, through,
}
use mnet.Dispatch.First.{Selected, find_route-Selected}
use mnet.Dispatch.Answers.{IsNamed, Permitted, dispatch-Permitted}

-- To dispatch a test unfolds this name.
runs : Unit {0}
unfolding method_number attempt find_loop or_get find_route not_found_answer call answer_route
    dispatch str_eq route_match match_loop capture pattern_end skip_slash decode_segment span ok
    create names_from in_name register name_of
runs = tt

abbrev one : Route ℕ
one = record {
  method = get;
  path = codes "/a/:x";
  handler = 1;
  param_names = codes "x" ∷ [];
  user_data = none;
  path_allocated = false;
}

abbrev two : Route ℕ
two = record one { path = codes "/a/*"; handler = 2; param_names = codes "*" ∷ [] }

abbrev app : App ℕ ℕ
app = record create { routes = one ∷ two ∷ []; route_capacity = 8; middleware = some 9 }

abbrev request : Request
request = record {
  method_text = codes "HEAD";
  method = head;
  path = codes "/a/b/c";
  path_only = codes "/a/b/c";
  query_string = none;
  content = [];
  body_heap = false;
  keep_alive = false;
  query = [];
  headers = [];
  cookies = [];
}

-- HEAD is served by the second GET route, through the middleware.
head_by_get :
    dispatch (λ _. ok) 16 app request
    ≡ through 9
        (record {
          parsed = request;
          path_param_names = codes "*" ∷ [];
          path_param_values = codes "b/c" ∷ [];
          path_param_count = 1;
          user_data = none;
        })
        2
unfolding runs
head_by_get = refl

find_route-Selected_example :
    Selected 16 head
      (codes "/a/b/c")
      (one ∷ two ∷ [])
      (find_route (λ _. ok) 16 head (codes "/a/b/c") (one ∷ two ∷ []))
find_route-Selected_example = find_route-Selected 16 head (codes "/a/b/c") (one ∷ two ∷ [])

one-IsNamed : IsNamed one
unfolding runs
one-IsNamed = inr (omega arith, refl)

two-IsNamed : IsNamed two
unfolding runs
two-IsNamed = inr (omega arith, refl)

dispatch-Permitted_example : Permitted 16 app request (dispatch (λ _. ok) 16 app request)
dispatch-Permitted_example = dispatch-Permitted 16 app request (one-IsNamed, (two-IsNamed, tt))
