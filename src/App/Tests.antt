-- ===== src/App/Tests.antt =====
-- Registrations on concrete applications, and the theorems at them.
use mnet.Base.{ℕ, ◌≡◌, refl, true, [], ◌∷◌, some, arith, codes, length, span}
use mnet.Parse.Line.{get}
use mnet.Router.{matched, route_match, match_loop, capture, pattern_end, skip_slash, decode_segment}
use mnet.Router.Complete.{ok}
use mnet.App.{
  names_from, in_name, register, name_of, decimal, digits_from, App, create, grow, append,
  add_named, add_grown, add_route, set_workers, add_static,
}
use mnet.App.Names.{names_from-length}
use mnet.App.Routes.{Registered, create-IsValid, add_route-Registered}

-- To register routes a test unfolds this name.
runs : Unit {0}
unfolding names_from in_name register name_of decimal digits_from create grow append add_named
    add_grown add_route set_workers add_static route_match match_loop capture pattern_end skip_slash
    decode_segment span ok
runs = tt

abbrev Empty : Type 0
Empty = App ℕ ℕ

names_of_user :
    names_from ok 0 (codes "/u/:id/:/*") ≡ some (codes "id" ∷ codes "_1" ∷ codes "*" ∷ [])
unfolding runs
names_of_user = refl

match_of_user :
    route_match ok 16 (some (codes "/u/:id/:/*")) (some (codes "/u/7/8/9/10"))
    ≡ matched 3 (codes "7" ∷ codes "8" ∷ codes "9/10" ∷ [])
unfolding runs
match_of_user = refl

names_from-length_example : length (codes "id" ∷ codes "_1" ∷ codes "*" ∷ []) ≡ 3
names_from-length_example =
    names_from-length ok ok 16 3 (codes "/u/:id/:/*") (codes "/u/7/8/9/10")
      (codes "id" ∷ codes "_1" ∷ codes "*" ∷ []) (codes "7" ∷ codes "8" ∷ codes "9/10" ∷ [])
      (omega arith) names_of_user match_of_user

-- Behind a dot the two part: three values, and two names.
too_few_names : names_from ok 0 (codes "/:a.*/:b/:c") ≡ some (codes "a" ∷ codes "*" ∷ [])
unfolding runs
too_few_names = refl

three_values :
    route_match ok 16 (some (codes "/:a.*/:b/:c")) (some (codes "/1/2/3"))
    ≡ matched 3 (codes "1" ∷ codes "2" ∷ codes "3" ∷ [])
unfolding runs
three_values = refl

abbrev app : App ℕ ℕ
app = (add_route {H = ℕ} {M = ℕ} true ok create get (some (codes "/a/:b")) (some 5)).0

app_route : length app.routes ≡ 1
unfolding runs
app_route = refl

add_route-Registered_example :
    let (after, status) =
      add_route {H = ℕ} {M = ℕ} true ok create get (some (codes "/a/:b")) (some 5) in
    Registered {M = ℕ} ok get (some (codes "/a/:b")) (some 5) create after status
add_route-Registered_example =
    add_route-Registered {H = ℕ} {M = ℕ} true ok create get (some (codes "/a/:b")) (some 5)
      create-IsValid
