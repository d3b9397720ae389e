-- ===== src/Handlers/Containment.antt =====
-- Which files the static handler can serve.
use mnet.Base.{
  ◌≡◌, inl, inr, refl, ap, ◌∙◌, Bool, true, false, ◌||◌, [], ◌∷◌, ◌++◌, append-nil, Option, none,
  some, arith, leb, if◌then◌else◌, Bytes, codes, length, drop, starts_with, Bool-cases,
}
use mnet.Response.{Response}
use mnet.Handlers.{
  text_response, status_response, ends_with, at_boundary, inside, not_found, serve, serve_inside,
  path_below, static_handler,
}

-- A path that is the root, or lies below it; a root may itself end with a slash.
pub data Below : Bytes → Bytes → Type 0 where
  root : {base real : Bytes} → real ≡ base → Below base real
  child : {base real : Bytes} (rest : Bytes) → real ≡ base ++ b'/' ∷ rest → Below base real
  under_slash :
      {base real : Bytes} (stem rest : Bytes)
      → base ≡ stem ++ b'/' ∷ []
      → real ≡ base ++ rest
      → Below base real

starts_with-append : (p s : Bytes) → starts_with p s ≡ true → s ≡ p ++ drop (length p) s
unfolding starts_with
starts_with-append [] s h = refl
starts_with-append (c ∷ p) [] h = absurd (ground arith)
starts_with-append (c ∷ p) (d ∷ s) h = ground (arith, starts_with-append p s)

ends_with-slash :
    (base : Bytes) → ends_with b'/' base ≡ true → (stem : Bytes) × (base ≡ stem ++ b'/' ∷ [])
unfolding ends_with
ends_with-slash [] h = absurd (ground arith)
ends_with-slash (c ∷ []) h = let e : c ≡ b'/' = ground arith in ([], ap (λ x. x ∷ []) e)
ends_with-slash (c ∷ d ∷ s) h =
    let (stem, e) = ends_with-slash (d ∷ s) h in (c ∷ stem, ap (λ x. c ∷ x) e)

by_boundary :
    (base real rest : Bytes) → real ≡ base ++ rest → at_boundary rest ≡ true → Below base real
unfolding at_boundary
by_boundary base real [] e h = root (e ∙ append-nil base)
by_boundary base real (c ∷ rest) e h =
    let slash : c ≡ b'/' = ground arith in child rest (e ∙ ap (λ x. base ++ x ∷ rest) slash)

inside-Below : (base real : Bytes) → inside base real ≡ true → Below base real
unfolding inside
inside-Below base real h =
    by_rest (drop (length base) real) (starts_with-append base real (ground arith)) (ground arith)
  where
    by_rest :
        (rest : Bytes)
        → real ≡ base ++ rest
        → (at_boundary rest || ends_with b'/' base) ≡ true
        → Below base real
    by_rest rest e h = elim (Bool-cases (at_boundary rest)) [
      | inl at ↦ by_boundary base real rest e at
      | inr not_at ↦
          let (stem, ends) = ends_with-slash base (ground arith) in under_slash stem rest ends e
    ]

-- A file that is served: it is what the path below the directory resolves to, it lies below the directory
-- as that resolves, and the response is its content.
pub record IsServed (realpath read_file : Bytes → Option Bytes) (dir fs_path : Bytes) (r : Response)
    : Type 0 where
  pub real : Bytes
  pub base : Bytes
  pub text : Bytes
  pub file_resolves : realpath fs_path ≡ some real
  pub resolves : realpath dir ≡ some base
  pub contained : Below base real
  pub reads : read_file real ≡ some text
  pub sends : (r.body ≡ some text) × (r.body_length ≡ length text)

module _ (realpath read_file : Bytes → Option Bytes) where
  serve-IsServed :
      (dir fs_path real base : Bytes) (o : Option Bytes)
      → realpath fs_path ≡ some real
      → realpath dir ≡ some base
      → Below base real
      → read_file real ≡ o
      → (serve realpath read_file fs_path o).status ≡ 200
      → IsServed realpath read_file dir fs_path (serve realpath read_file fs_path o)
  unfolding serve not_found status_response text_response
  serve-IsServed dir fs_path real base none e0 e1 below e2 h = absurd (ground arith)
  serve-IsServed dir fs_path real base (some content) e0 e1 below e2 h = record {
    real = real;
    base = base;
    text = content;
    file_resolves = e0;
    resolves = e1;
    contained = below;
    reads = e2;
    sends = (refl, refl);
  }

  serve_inside-IsServed :
      (dir fs_path : Bytes) (o p : Option Bytes)
      → realpath fs_path ≡ o
      → realpath dir ≡ p
      → (serve_inside realpath read_file fs_path o p).status ≡ 200
      → IsServed realpath read_file dir fs_path (serve_inside realpath read_file fs_path o p)
  unfolding serve_inside not_found status_response text_response
  serve_inside-IsServed dir fs_path none p e0 e h = absurd (ground arith)
  serve_inside-IsServed dir fs_path (some real) none e0 e h = absurd (ground arith)
  serve_inside-IsServed dir fs_path (some real) (some base) e0 e h = round (inside base real) refl h
    where
      round :
          (b : Bool)
          → inside base real ≡ b
          → (if b
              then serve realpath read_file fs_path (read_file real)
              else status_response 403 (some (codes "forbidden"))).status
            ≡ 200
          → IsServed realpath read_file dir fs_path (
              if b
              then serve realpath read_file fs_path (read_file real)
              else status_response 403 (some (codes "forbidden")))
      round true e' h =
          serve-IsServed dir fs_path real base (read_file real) e0 e (inside-Below base real e')
            refl h
      round false e' h = absurd (ground arith)

  -- Whatever the path of the request, the static handler answers 200 only with the content of a file
  -- that the path behind the prefix, put behind the directory, resolves to (by realpath), and that is the
  -- resolved directory or lies below it: no path leads out of the directory,
  -- nor into a sibling whose name begins with its name.
  pub static_handler-IsServed :
      (url_prefix dir url_path : Bytes)
      → (static_handler realpath read_file (some (url_prefix, dir)) url_path).status ≡ 200
      → IsServed realpath read_file dir
          (path_below url_prefix dir url_path)
          (static_handler realpath read_file (some (url_prefix, dir)) url_path)
  unfolding static_handler not_found status_response text_response
  static_handler-IsServed url_prefix dir url_path h =
      round (leb 4096 (length (path_below url_prefix dir url_path))) h
    where
      fs_path : Bytes
      fs_path = path_below url_prefix dir url_path

      round :
          (b : Bool)
          → (if b
              then not_found
              else serve_inside realpath read_file fs_path (realpath fs_path) (realpath dir)).status
            ≡ 200
          → IsServed realpath read_file dir fs_path (
              if b
              then not_found
              else serve_inside realpath read_file fs_path (realpath fs_path) (realpath dir))
      round true h = absurd (ground arith)
      round false h =
          serve_inside-IsServed dir fs_path (realpath fs_path) (realpath dir) refl refl h
