-- ===== src/RequestAccess.antt =====
-- src/mnet_request.c: what a handler reads of its request.
pub mod Lookup
mod Tests
use mnet.Base.{
  ℕ, zero, suc, Bool, true, List, [], ◌∷◌, map, Option, none, some, if◌then◌else◌, Bytes, length,
  str_eq, str_case_eq,
}
use mnet.Parse.Fields.{Pair}
use mnet.Parse.Request.{Request}
use mnet.Dispatch.{HandlerRequest}

-- The result of a lookup: NULL, a value, or a read behind the end of an array.
pub data Looked : Type 0 where
  null : Looked
  value : Bytes → Looked
  out_of_range : Looked

-- The loop of the four lookups, over the arrays of names and values from i on, with `count - i` rounds
-- left and the names compared by `same`.
unfoldable pub lookup : (Bytes → Bytes → Bool) → Bytes → ℕ → List Bytes → List Bytes → Looked
lookup same name zero names values = null
lookup same name (suc left) [] values = out_of_range
lookup same name (suc left) (x ∷ names) [] =
    let later = lookup same name left names [] in if same x name then out_of_range else later
lookup same name (suc left) (x ∷ names) (v ∷ values) =
    let later = lookup same name left names values in if same x name then value v else later

-- A NULL name, or NULL instead of the array of names, finds nothing.
unfoldable pub lookup_in :
    (Bytes → Bytes → Bool) → Option Bytes → ℕ → List Bytes → List Bytes → Looked
lookup_in same none count names values = null
lookup_in same (some name) count [] values = null
lookup_in same (some name) count (x ∷ names) values = lookup same name count (x ∷ names) values

-- `mnet_request_param`
unfoldable pub request_param : HandlerRequest → Option Bytes → Looked
request_param req name =
    lookup_in str_eq name req.path_param_count req.path_param_names req.path_param_values

unfoldable pub names_of : List Pair → List Bytes
names_of [] = []
names_of ((x, v) ∷ ps) = x ∷ names_of ps

unfoldable pub values_of : List Pair → List Bytes
values_of [] = []
values_of ((x, v) ∷ ps) = v ∷ values_of ps

unfoldable pub lookup_pairs : (Bytes → Bytes → Bool) → List Pair → Option Bytes → Looked
lookup_pairs same ps name = lookup_in same name (length ps) (names_of ps) (values_of ps)

-- `mnet_request_query`, `mnet_request_header` and `mnet_request_cookie`
unfoldable pub request_query : Request → Option Bytes → Looked
request_query r name = lookup_pairs str_eq r.query name

unfoldable pub request_header : Request → Option Bytes → Looked
request_header r name = lookup_pairs str_case_eq r.headers name

unfoldable pub request_cookie : Request → Option Bytes → Looked
request_cookie r name = lookup_pairs str_eq r.cookies name
