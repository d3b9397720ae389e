-- ===== src/RequestAccess/Lookup.antt =====
-- What the lookups find, and that they stay within their arrays.
use mnet.Base.{
  ℕ, zero, suc, ◌≤◌, ◌≡◌, ◌≢◌, ◌⊎◌, inl, inr, subst, refl, ap, Bool, true, false, List, [], ◌∷◌,
  ◌++◌, Option, none, some, arith, Bytes, All, length, length-take, str_eq, str_case_eq,
  if◌then◌else◌,
}
use mnet.Parse.Fields.{Pair}
use mnet.Parse.Request.{Request}
use mnet.App.{App}
use mnet.Dispatch.{HandlerRequest, handled, through, dispatch}
use mnet.Router.Complete.{ok}
use mnet.Dispatch.Answers.{IsNamed, IsCall, Permitted, dispatch-Permitted}
use mnet.RequestAccess.{
  Looked, null, value, out_of_range, lookup, lookup_in, request_param, names_of, values_of,
  lookup_pairs, request_header, request_query,
}

-- Within their arrays the lookups read only what is there.
lookup-in_range :
    (same : Bytes → Bytes → Bool) (name : Bytes) (left : ℕ) (names values : List Bytes)
    → left ≤ length names
    → left ≤ length values
    → lookup same name left names values ≢ out_of_range
unfolding lookup
lookup-in_range same name zero names values h1 h2 = ground arith
lookup-in_range same name (suc left) [] values h1 h2 = absurd (omega arith)
lookup-in_range same name (suc left) (x ∷ names) [] h1 h2 = absurd (omega arith)
lookup-in_range same name (suc left) (x ∷ names) (v ∷ values) h1 h2 =
    let later = lookup-in_range same name left names values (omega arith) (omega arith) in
    ground arith

lookup_in-in_range :
    (same : Bytes → Bytes → Bool) (name : Option Bytes) (count : ℕ) (names values : List Bytes)
    → (names ≡ []) ⊎ (count ≡ length names)
    → count ≤ length values
    → lookup_in same name count names values ≢ out_of_range
unfolding lookup_in
lookup_in-in_range same none count names values h1 h2 = ground arith
lookup_in-in_range same (some name) count [] values h1 h2 = ground arith
lookup_in-in_range same (some name) count (x ∷ names) values h1 h2 =
    lookup-in_range same name count (x ∷ names) values (ground arith) h2

module _ {H M : Type 0} (max : ℕ) (app : App H M) (parsed : Request) where
  IsCall-in_range :
      (h : H) (req : HandlerRequest) (name : Option Bytes)
      → IsCall max app parsed h req
      → req.path_param_count ≤ max
      → request_param req name ≢ out_of_range
  unfolding request_param
  IsCall-in_range h req name c few =
      lookup_in-in_range str_eq name req.path_param_count req.path_param_names req.path_param_values
        (ground (arith, c.names_fit)) enough
    where
      enough : req.path_param_count ≤ length req.path_param_values
      enough =
          let kept = ap length c.first.kept in
          let counted = c.first.counted in omega (arith, length-take max c.first.serves.values)

  -- `dispatch` hands this request to a handler, at once or through the middleware.
  abbrev pub IsGiven : H → HandlerRequest → Type 0
  IsGiven h req =
      (dispatch (λ _. ok) max app parsed ≡ handled h req)
      ⊎ ((m : M) × (dispatch (λ _. ok) max app parsed ≡ through m req h))

  -- When the allocations succeed and the parameter names of every route are NULL or those of a pattern
  -- without dots, a handler that `dispatch` calls with at most max_params parameters can ask for any path
  -- parameter, and no read leaves the arrays of names and values.
  pub request_param-in_range :
      (h : H) (req : HandlerRequest) (name : Option Bytes)
      → All IsNamed app.routes
      → IsGiven h req
      → req.path_param_count ≤ max
      → request_param req name ≢ out_of_range
  unfolding Permitted
  request_param-in_range h req name named (inl e) few =
      IsCall-in_range h req name
        (subst (Permitted max app parsed) e (dispatch-Permitted max app parsed named)).1 few
  request_param-in_range h req name named (inr (m, e)) few =
      IsCall-in_range h req name
        (subst (Permitted max app parsed) e (dispatch-Permitted max app parsed named)).1 few

-- The first pair whose name is the same.
pub record IsFirstNamed (same : Bytes → Bytes → Bool) (name : Bytes) (ps : List Pair) (v : Bytes)
    : Type 0 where
  pub before : List Pair
  pub own_name : Bytes
  pub behind : List Pair
  pub there : ps ≡ before ++ (own_name, v) ∷ behind
  pub passed : All (λ p. same p.0 name ≡ false) before
  pub named : same own_name name ≡ true

abbrev pub Finds : (Bytes → Bytes → Bool) → Bytes → List Pair → Looked → Type 0
Finds same name ps null = All (λ p. same p.0 name ≡ false) ps
Finds same name ps (value v) = IsFirstNamed same name ps v
Finds same name ps out_of_range = ⊥

later-Finds :
    (same : Bytes → Bytes → Bool) (name : Bytes) (p : Pair) (ps : List Pair) (l : Looked)
    → same p.0 name ≡ false
    → Finds same name ps l
    → Finds same name (p ∷ ps) l
later-Finds same name p ps null e h = (e, h)
later-Finds same name p ps (value v) e h = record {
  before = p ∷ h.before;
  own_name = h.own_name;
  behind = h.behind;
  there = ap (λ l. p ∷ l) h.there;
  passed = (e, h.passed);
  named = h.named;
}
later-Finds same name p ps out_of_range e h = absurd h

lookup-Finds :
    (same : Bytes → Bytes → Bool) (name : Bytes) (ps : List Pair)
    → Finds same name ps (lookup same name (length ps) (names_of ps) (values_of ps))
unfolding lookup names_of values_of
lookup-Finds same name [] = tt
lookup-Finds same name ((x, v) ∷ ps) = round (same x name) refl (lookup-Finds same name ps)
  where
    round :
        (b : Bool)
        → same x name ≡ b
        → Finds same name ps (lookup same name (length ps) (names_of ps) (values_of ps))
        → Finds same name
            ((x, v) ∷ ps)
            (if b then value v else lookup same name (length ps) (names_of ps) (values_of ps))
    round true e h = record {
      before = [];
      own_name = x;
      behind = ps;
      there = refl;
      passed = tt;
      named = e;
    }
    round false e h =
        later-Finds same name (x, v) ps (lookup same name (length ps) (names_of ps) (values_of ps))
          e h

lookup_pairs-Finds :
    (same : Bytes → Bytes → Bool) (name : Bytes) (ps : List Pair)
    → Finds same name ps (lookup_pairs same ps (some name))
unfolding lookup_pairs lookup_in names_of
lookup_pairs-Finds same name [] = tt
lookup_pairs-Finds same name (p ∷ ps) = lookup-Finds same name (p ∷ ps)

-- A header is found under its name in any case, and a query parameter under exactly its name: each lookup
-- gives the value of the first pair of that name, and NULL only when there is no such pair.
pub request_header-Finds :
    (r : Request) (name : Bytes)
    → Finds str_case_eq name r.headers (request_header r (some name))
      × Finds str_eq name r.query (request_query r (some name))
unfolding request_header request_query
request_header-Finds r name =
    (lookup_pairs-Finds str_case_eq name r.headers, lookup_pairs-Finds str_eq name r.query)
