-- ===== src/Dispatch/First.antt =====
-- Which route `mnet_find_route` chooses.
use mnet.Base.{
  ℕ, suc, ◌≡◌, ◌≢◌, ◌⊎◌, inl, inr, refl, sym, ap, subst, ◌∙◌, Bool, true, false, List, [], ◌∷◌,
  ◌++◌, some, arith, ◌==◌, Bytes, All, length, take, if◌then◌else◌,
}
use mnet.Parse.Line.{Method, get, post, put, patch, delete, head, options}
use mnet.Router.{Match, matched, no_match, refused, route_match}
use mnet.Router.Grammar.{Matches}
use mnet.Router.Sound.{route_match_sound}
use mnet.Router.Complete.{ok, route_match_complete}
use mnet.App.{Route}
use mnet.Dispatch.{method_number, Found, nowhere, found, attempt, find_loop, or_get, find_route}

-- The pattern and the path begin with a slash, and the path fits the pattern with these values.
pub record Fits (pattern path : Bytes) (all : List Bytes) : Type 0 where
  pub pattern_tail : Bytes
  pub path_tail : Bytes
  pub pattern_root : pattern ≡ b'/' ∷ pattern_tail
  pub path_root : path ≡ b'/' ∷ path_tail
  pub fits : Matches (b'/' ∷ pattern_tail) (b'/' ∷ path_tail) all

-- This route serves the method and the path.
pub record Serves {H : Type 0} (method : Method) (path : Bytes) (r : Route H) : Type 0 where
  pub same_method : r.method ≡ method
  pub values : List Bytes
  pub fits : Fits r.path path values

-- `mnet_find_route` gives the first route that serves the method and the path.
pub record IsFirst {H : Type 0} (max : ℕ) (method : Method) (path : Bytes) (routes : List (Route H))
    (r : Route H) (n : ℕ) (stored : List Bytes) : Type 0 where
  pub before : List (Route H)
  pub behind : List (Route H)
  pub there : routes ≡ before ++ r ∷ behind
  pub passed : All (λ q. ¬ Serves method path q) before
  pub serves : Serves method path r
  pub counted : n ≡ length serves.values
  pub kept : stored ≡ take max serves.values

unfoldable pub Chosen : {H : Type 0} → ℕ → Method → Bytes → List (Route H) → Found H → Type 0
Chosen max method path routes nowhere = All (λ q. ¬ Serves method path q) routes
Chosen max method path routes (found r n stored) = IsFirst max method path routes r n stored

method_of : ℕ → Method
method_of n =
    if n == 0
    then get
    else if n == 1
    then post
    else if n == 2
    then put
    else if n == 3
    then patch
    else if n == 4
    then delete
    else if n == 5
    then head
    else options

method_of-method_number : (m : Method) → method_of (method_number m) ≡ m
unfolding method_of method_number
method_of-method_number get = refl
method_of-method_number post = refl
method_of-method_number put = refl
method_of-method_number patch = refl
method_of-method_number delete = refl
method_of-method_number head = refl
method_of-method_number options = refl

method_number-injective : (a b : Method) → method_number a ≡ method_number b → a ≡ b
method_number-injective a b h =
    sym (method_of-method_number a) ∙ ap method_of h ∙ method_of-method_number b

pub Fits-matched :
    (max : ℕ) (pattern path : Bytes) (all : List Bytes)
    → Fits pattern path all
    → route_match ok max (some pattern) (some path) ≡ matched (length all) (take max all)
Fits-matched max pattern path all f =
    rw (f.pattern_root, f.path_root)
      (route_match_complete max f.pattern_tail f.path_tail all f.fits)

rooted :
    (max n : ℕ) (pattern path : Bytes) (stored : List Bytes)
    → route_match ok max (some pattern) (some path) ≡ matched n stored
    → (p r : Bytes) × (pattern ≡ b'/' ∷ p) × (path ≡ b'/' ∷ r)
unfolding route_match
rooted max n [] path stored h = absurd (ground arith)
rooted max n (c ∷ p) [] stored h = absurd (ground arith)
rooted max n (c ∷ p) (d ∷ r) stored h =
    let first : c ≡ b'/' = ground arith in
    let second : d ≡ b'/' = ground arith in (p, r, ap (λ x. x ∷ p) first, ap (λ x. x ∷ r) second)

matched-Fits :
    (max n : ℕ) (pattern path : Bytes) (stored : List Bytes)
    → route_match ok max (some pattern) (some path) ≡ matched n stored
    → (all : List Bytes) × Fits pattern path all × (n ≡ length all) × (stored ≡ take max all)
matched-Fits max n pattern path stored h =
    let (all, fits, count, kept) = route_match_sound ok max n pattern path stored h in
    let (p, r, e1, e2) = rooted max n pattern path stored h in
    let both : Matches (b'/' ∷ p) (b'/' ∷ r) all =
      subst (λ x. Matches x (b'/' ∷ r) all) e1 (subst (λ x. Matches pattern x all) e2 fits) in
    (
      all,
      record { pattern_tail = p; path_tail = r; pattern_root = e1; path_root = e2; fits = both },
      count,
      kept,
    )

module _ {H : Type 0} (max : ℕ) (method : Method) (path : Bytes) where
  no_Serves-match :
      (q : Route H) (o : Match)
      → route_match ok max (some q.path) (some path) ≡ o
      → ((n : ℕ) (stored : List Bytes) → o ≢ matched n stored)
      → ¬ Serves method path q
  no_Serves-match q o e never s =
      never (length s.values) (take max s.values)
        (sym e ∙ Fits-matched max q.path path s.values s.fits)

  skip :
      (q : Route H) (rs : List (Route H)) (f : Found H)
      → ¬ Serves method path q
      → Chosen max method path rs f
      → Chosen max method path (q ∷ rs) f
  unfolding Chosen
  skip q rs nowhere unserved h = (unserved, h)
  skip q rs (found r n stored) unserved h = record {
    before = q ∷ h.before;
    behind = h.behind;
    there = ap (λ l. q ∷ l) h.there;
    passed = (unserved, h.passed);
    serves = h.serves;
    counted = h.counted;
    kept = h.kept;
  }

  attempt-Chosen :
      (q : Route H) (rs : List (Route H)) (f : Found H) (o : Match)
      → route_match ok max (some q.path) (some path) ≡ o
      → q.method ≡ method
      → Chosen max method path rs f
      → Chosen max method path (q ∷ rs) (attempt q o f)
  unfolding attempt Chosen
  attempt-Chosen q rs f (matched n stored) e same h =
      let (all, fits, count, kept) = matched-Fits max n q.path path stored e in
      record {
        before = [];
        behind = rs;
        there = refl;
        passed = tt;
        serves = record { same_method = same; values = all; fits = fits };
        counted = count;
        kept = kept;
      }
  attempt-Chosen q rs f (no_match n live) e same h =
      skip q rs f (no_Serves-match q (no_match n live) e (λ m stored. ground arith)) h
  attempt-Chosen q rs f refused e same h =
      skip q rs f (no_Serves-match q refused e (λ m stored. ground arith)) h

  find_loop-Chosen :
      (i : ℕ) (rs : List (Route H))
      → Chosen max method path rs (find_loop (λ _. ok) max method path i rs)
  unfolding find_loop Chosen
  find_loop-Chosen i [] = tt
  find_loop-Chosen i (q ∷ rs) =
      round (method_number q.method == method_number method) refl (find_loop-Chosen (suc i) rs)
    where
      round :
          (b : Bool)
          → (method_number q.method == method_number method) ≡ b
          → Chosen max method path rs (find_loop (λ _. ok) max method path (suc i) rs)
          → Chosen max method path (q ∷ rs) (
              if b
              then attempt q
                  (route_match ok max (some q.path) (some path))
                  (find_loop (λ _. ok) max method path (suc i) rs)
              else find_loop (λ _. ok) max method path (suc i) rs)
      round true e h =
          attempt-Chosen q rs (find_loop (λ _. ok) max method path (suc i) rs)
            (route_match ok max (some q.path) (some path)) refl
            (method_number-injective q.method method (ground arith)) h
      round false e h =
          skip q rs (find_loop (λ _. ok) max method path (suc i) rs)
            (λ s.
              let same : method_number q.method ≡ method_number method =
                ap method_number s.same_method in
              absurd (ground arith))
            h

-- What `mnet_find_route` has to give: a route that is the first to serve the method and the path, or, for
-- HEAD where no HEAD route serves the path, the first GET route that does; and NULL only where no route
-- serves the method and, for HEAD, no GET route serves the path either.
unfoldable pub Selected : {H : Type 0} → ℕ → Method → Bytes → List (Route H) → Found H → Type 0
Selected max method path routes nowhere =
    All (λ q. ¬ Serves method path q) routes
    × (method ≡ head → All (λ q. ¬ Serves get path q) routes)
Selected max method path routes (found r n stored) =
    IsFirst max method path routes r n stored
    ⊎ ((method ≡ head)
        × All (λ q. ¬ Serves head path q) routes
        × IsFirst max get path routes r n stored)

or_get-Selected :
    {H : Type 0} (max : ℕ) (method : Method) (path : Bytes) (routes : List (Route H))
    (direct by_get : Found H)
    → Chosen max method path routes direct
    → Chosen max get path routes by_get
    → Selected max method path routes (or_get method direct by_get)
unfolding or_get Chosen Selected
or_get-Selected max method path routes (found r n stored) by_get h hg = inl h
or_get-Selected {H = H} max method path routes nowhere by_get h hg =
    round (method_number method == method_number head) refl by_get hg
  where
    round :
        (b : Bool)
        → (method_number method == method_number head) ≡ b
        → (f : Found H) → Chosen max get path routes f
        → Selected max method path routes (if b then f else nowhere)
    round false e f hg = (h, λ is_head. let n = ap method_number is_head in absurd (ground arith))
    round true e nowhere hg = (h, λ is_head. hg)
    round true e (found r n stored) hg =
        let is_head = method_number-injective method head (ground arith) in
        inr (is_head, subst (λ m. All (λ q. ¬ Serves m path q) routes) is_head h, hg)

-- When the allocations succeed, `mnet_find_route` gives the first route that serves the method and the
-- path, with the values of its parameters (at most max_params of them stored). Only for HEAD, and only
-- when no HEAD route serves the path, it gives the first GET route that does. It gives none only when no
-- route serves the method and the path and, for HEAD, no GET route serves the path.
pub find_route-Selected :
    {H : Type 0} (max : ℕ) (method : Method) (path : Bytes) (routes : List (Route H))
    → Selected max method path routes (find_route (λ _. ok) max method path routes)
unfolding find_route
find_route-Selected max method path routes =
    or_get-Selected max method path routes (find_loop (λ _. ok) max method path 0 routes)
      (find_loop (λ _. ok) max get path (length routes) routes)
      (find_loop-Chosen max method path 0 routes)
      (find_loop-Chosen max get path (length routes) routes)
