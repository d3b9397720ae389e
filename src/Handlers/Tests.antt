-- ===== src/Handlers/Tests.antt =====
-- A small file system, and what the static handler serves of it.
use mnet.Base.{
  ◌≡◌, refl, Option, none, some, Bytes, codes, starts_with, str_eq, str_case_eq, to_lower,
  if◌then◌else◌, skip_while, cut_at, false, [], ◌∷◌,
}
use mnet.Router.{skip_slash}
use mnet.Handlers.{
  text_response, status_response, behind_last, type_in, mime_type, ends_with, at_boundary, inside,
  not_found, path_below, serve, serve_inside, static_handler,
}
use mnet.App.{decimal, digits_from}
use mnet.Parse.Text.{is_blank}
use mnet.Handlers.Welcome.{commit_of, fill, fill_step}
use mnet.Handlers.Containment.{IsServed, static_handler-IsServed}

-- To serve a file a test unfolds this name.
runs : Unit {0}
unfolding text_response status_response behind_last type_in mime_type ends_with at_boundary inside
    not_found path_below serve serve_inside static_handler skip_slash starts_with str_eq str_case_eq
    to_lower
runs = tt

-- The root is /www; a path below it that goes up leads into its sibling /www2.
abbrev resolve : Bytes → Option Bytes
resolve path =
    if str_eq path (codes "/www/../www2/k")
    then some (codes "/www2/k")
    else if str_eq path (codes "/www/gone")
    then none
    else some path

abbrev file : Bytes → Option Bytes
file path = some (codes "hi")

page_served :
    static_handler resolve file (some (codes "/s", codes "/www")) (codes "/s/a.b.HTML")
    ≡ text_response 200 (codes "text/html") (codes "hi")
unfolding runs
page_served = refl

sibling_refused :
    (static_handler resolve file (some (codes "/s", codes "/www")) (codes "/s/../www2/k")).status
    ≡ 403
unfolding runs
sibling_refused = refl

gone_refused :
    static_handler resolve file (some (codes "/s", codes "/www")) (codes "/s/gone") ≡ not_found
unfolding runs
gone_refused = refl

page_status :
    (static_handler resolve file (some (codes "/s", codes "/www")) (codes "/s/a.txt")).status ≡ 200
unfolding runs
page_status = refl

static_handler-IsServed_example :
    IsServed resolve file
      (codes "/www")
      (path_below (codes "/s") (codes "/www") (codes "/s/a.txt"))
      (static_handler resolve file (some (codes "/s", codes "/www")) (codes "/s/a.txt"))
static_handler-IsServed_example =
    static_handler-IsServed resolve file (codes "/s") (codes "/www") (codes "/s/a.txt") page_status

-- On a branch the page shows the name of the branch, cut to 12 bytes, and not a commit.
branch_for_commit :
    (commit_of (some (codes "ref: refs/heads/main\n")) ≡ codes "refs/heads/m")
    × (commit_of (some (codes "0123456789abcdef\n")) ≡ codes "0123456789ab")
unfolding commit_of starts_with skip_while is_blank cut_at
branch_for_commit = (refl, refl)

filled : fill false (codes "<p>%s %d</p>") (codes "ab" ∷ decimal 7 ∷ []) ≡ codes "<p>ab 7</p>"
unfolding fill fill_step decimal digits_from
filled = refl
