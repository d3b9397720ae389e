-- ===== src/Format/Render.antt =====
-- src/mnet_response.c, `mnet_jsonfv`: what a format of known items is rendered to.
use mnet.Base.{
  ℕ, zero, suc, ◌+◌, ◌*◌, ◌<◌, ◌≤◌, ◌^◌, ◌≡◌, refl, sym, ap, ◌∙◌, inl, inr, Bool, true, false, not,
  ◌&&◌, List, [], ◌∷◌, ◌++◌, Option, none, some, arith, ==_ne, append_assoc, append-nil, ltb, leb,
  Bytes, length, length-append, All, All-append, ◌≢◌, Bool-cases,
}
use mnet.App.{decimal}
use mnet.Json.Bounds.{escaped, length-escaped, json_escape-escaped}
use mnet.Json.Reading.{Mode, read, read-escaped, closing}
use mnet.Format.Buffer.{Buffer, filled, make_room, put_text, put_byte, grow_loop-lt, grow_loop-some}
use mnet.App.{ℤ}
use mnet.Format.Spec.{Verdict, verdict}
use mnet.Format.Loop.{
  Arg, or_null_text, written, Round, go, continued, write, write_escaped, string_step, write_cut,
  cut_step, char_step, append_value, value_step, integer_step, double_step, long_double_step,
  spelled, number_step, directive_step, step_in, step, resume, format_loop, jsonfv,
}
use mnet.Format.Items.{
  Item, literal, percent_sign, string_item, cut_item, char_item, number_item, shown, argument,
  printed, number_text, rendered, render, show_items, arguments, Reads, signed, unsigned, real,
  long_real, IsItem,
}
use mnet.Format.Scan.{
  directive-string, directive-char, directive-percent, directive-cut, directive-number,
}

spelled_lem : (spec : Bytes) → length spec + 2 ≤ 64 → leb 64 (length spec + 1) ≡ false
spelled_lem spec h = ground arith

-- The round goes on at f, with w put behind the text.
abbrev Renders : {R : Type 0} → Buffer → Bytes → List (Arg R) → Bytes → Round R → Type 0
Renders b f args w s =
    (b' : Buffer) × (s ≡ go b' f args) × (b'.text ≡ b.text ++ w) × (0 < b'.capacity)

module _ {R : Type 0} (memory : ℕ → Bool) (print_int : Bytes → ℤ → Option Bytes)
    (print_real : Bytes → R → Option Bytes) (all : (n : ℕ) → memory n ≡ true) where
  module _ (b : Buffer) (positive : 0 < b.capacity) (f : Bytes) (args : List (Arg R)) where
    write-Renders : (w : Bytes) → Renders b f args w (write memory print_int print_real b f args w)
    unfolding write continued put_text filled
    write-Renders w =
        let need = length b.text + length w + 1 in
        let (cap, grown) = grow_loop-some memory all need need b.capacity (omega arith) positive in
        (
          record { text = b.text ++ w; capacity = cap },
          rw grown refl,
          refl,
          omega (arith, grow_loop-lt memory need need b.capacity cap grown),
        )

    escaped-Renders :
        (s : Bytes)
        → Renders b f args (escaped s) (write_escaped memory print_int print_real b f args s)
    unfolding write_escaped
    escaped-Renders s =
        rw
          (
            all (length s * 6 + 1),
            json_escape-escaped (length s * 6 + 1) s (omega (arith, length-escaped s)),
          )
          (write-Renders (escaped s))

    write_cut-Renders :
        (s : Bytes)
        → Renders b f args (escaped s) (write_cut memory print_int print_real b f args s)
    unfolding write_cut
    write_cut-Renders s = rw (all (length s * 6 + 1), all (length s + 1)) (escaped-Renders s)

    append-Renders :
        (w : Bytes) → Renders b f args w (append_value memory print_int print_real b f args w)
    unfolding append_value
    append-Renders [] = (b, refl, sym (append-nil b.text), positive)
    append-Renders (c ∷ w) = write-Renders (c ∷ w)

    value-Renders :
        (fix : Bytes → Bytes) (o : Option Bytes)
        → Renders b f args
            (printed print_int print_real fix o)
            (value_step memory print_int print_real fix b f args o)
    unfolding value_step
    value-Renders fix none = (b, refl, sym (append-nil b.text), positive)
    value-Renders fix (some w) =
        let fits : (ltb 64 (length w + 1) && not (memory (length w + 1))) ≡ false =
          ground (arith, all (length w + 1)) in
        rw fits (append-Renders (fix w))

    number-Renders :
        (v : Verdict) (a : Arg R)
        → Reads R v a
        → Renders b f args
            (number_text print_int print_real v a)
            (number_step memory print_int print_real v b f (a ∷ args))
    unfolding number_step spelled integer_step double_step long_double_step
    number-Renders _ _ (signed w spec v short) = rw (spelled_lem spec short) (value-Renders _ _)
    number-Renders _ _ (unsigned w spec v short) = rw (spelled_lem spec short) (value-Renders _ _)
    number-Renders _ _ (real spec v) = value-Renders _ _
    number-Renders _ _ (long_real spec v short) = rw (spelled_lem spec short) (value-Renders _ _)

  IsItem-Renders :
      (i : Item R) (b : Buffer) (rest : Bytes) (more : List (Arg R))
      → 0 < b.capacity
      → IsItem R i
      → (c : ℕ) × (f : Bytes) × (shown i ++ rest ≡ c ∷ f)
        × Renders b rest more
            (rendered print_int print_real i)
            (step_in memory print_int print_real (some b) c f (argument i ++ more))
  unfolding step_in directive_step string_step cut_step char_step put_byte
  IsItem-Renders (literal c) b rest more h ok =
      (c, rest, refl, (record b { text = b.text ++ c ∷ [] }, rw (==_ne c b'%' ok) refl, refl, h))
  IsItem-Renders percent_sign b rest more h ok = (
    b'%',
    b'%' ∷ rest,
    refl,
    (record b { text = b.text ++ b'%' ∷ [] }, rw (directive-percent rest) refl, refl, h),
  )
  IsItem-Renders (string_item s) b rest more h ok = (
    b'%',
    b's' ∷ rest,
    refl,
    rw (directive-string rest) (escaped-Renders b h rest more (or_null_text s)),
  )
  IsItem-Renders (cut_item n s) b rest more h ok =
      let small : leb (2 ^ 31) n ≡ false = ground arith in
      (
        b'%',
        b'.' ∷ decimal n ++ b's' ∷ rest,
        ap (λ t. b'%' ∷ b'.' ∷ t) (append_assoc (decimal n) (b's' ∷ []) rest),
        rw (directive-cut n rest) (rw small (write_cut-Renders b h rest more _)),
      )
  IsItem-Renders (char_item v) b rest more h ok =
      (b'%', b'c' ∷ rest, refl, rw (directive-char rest) (write-Renders b h rest more _))
  IsItem-Renders (number_item body conv a) b rest more h ok = (
    b'%',
    body ++ conv ∷ rest,
    ap (λ t. b'%' ∷ t) (append_assoc body (conv ∷ []) rest),
    rw (directive-number body conv rest ok.0)
        (number-Renders b h rest more (verdict body conv) a ok.1),
  )

  make_room-some :
      (b : Buffer)
      → 0 < b.capacity
      → (b' : Buffer) × (make_room memory b ≡ some b') × (b'.text ≡ b.text) × (0 < b'.capacity)
  unfolding make_room
  make_room-some b h = elim (Bool-cases (leb b.capacity (length b.text + 1))) [
    | inl e ↦ (
      record b { capacity = b.capacity * 2 },
      rw (e, all (b.capacity * 2)) refl,
      refl,
      omega arith,
    )
    | inr e ↦ (b, rw e refl, refl, h)
  ]

  loop-render :
      (items : List (Item R)) (fuel : ℕ) (b : Buffer)
      → length items ≤ fuel
      → 0 < b.capacity
      → All (IsItem R) items
      → format_loop memory print_int print_real fuel b (show_items items) (arguments items)
        ≡ written (b.text ++ render print_int print_real items)
  unfolding format_loop resume step
  loop-render [] fuel b l h ok = ap written (sym (append-nil b.text))
  loop-render (i ∷ items) zero b l h ok = absurd (omega arith)
  loop-render (i ∷ items) (suc fuel) b l h ok =
      let (roomy, found, same, positive) = make_room-some b h in
      let (c, f, e, (b', moved, added, positive')) =
        IsItem-Renders i roomy (show_items items) (arguments items) positive ok.0 in
      let stepped : step memory print_int print_real b c f (argument i ++ arguments items)
          ≡ go b' (show_items items) (arguments items) =
        rw found moved in
      let text_of : b'.text ≡ b.text ++ rendered print_int print_real i =
        added ∙ ap (λ t. t ++ rendered print_int print_real i) same in
      rw (e, stepped)
        (loop-render items fuel b' (omega arith) positive' ok.1
          ∙ ap (λ t. written (t ++ render print_int print_real items)) text_of
          ∙ ap written (
              append_assoc b.text (rendered print_int print_real i)
                (render print_int print_real items)))

  shown-pos : (i : Item R) → 0 < length (shown i)
  shown-pos (literal c) = omega arith
  shown-pos percent_sign = omega arith
  shown-pos (string_item s) = omega arith
  shown-pos (cut_item n s) = omega arith
  shown-pos (char_item v) = omega arith
  shown-pos (number_item body conv a) = omega arith

  length-show_items : (items : List (Item R)) → length items ≤ length (show_items items)
  length-show_items [] = omega arith
  length-show_items (i ∷ items) =
      omega
        (arith, length-append (shown i) (show_items items), shown-pos i, length-show_items items)

  -- With memory, a format that is put together from items, ordinary bytes, "%%", %s, %.Ns, %c and
  -- accepted specifiers of numbers (which fit in their block when they are rewritten) with arguments of the
  -- type they read, is rendered item by item: each directive takes its own argument, and every text is
  -- escaped.
  pub jsonfv-render :
      (items : List (Item R))
      → All (IsItem R) items
      → jsonfv memory print_int print_real (some (show_items items)) (arguments items)
        ≡ written (render print_int print_real items)
  unfolding jsonfv
  jsonfv-render items ok =
      rw (all 256)
        (loop-render items (length (show_items items)) _ (length-show_items items) (omega arith) ok)

  render-append :
      (xs ys : List (Item R))
      → render print_int print_real (xs ++ ys)
        ≡ render print_int print_real xs ++ render print_int print_real ys
  render-append [] ys = refl
  render-append (x ∷ xs) ys =
      ap (λ t. rendered print_int print_real x ++ t) (render-append xs ys)
      ∙ sym (
          append_assoc (rendered print_int print_real x) (render print_int print_real xs)
            (render print_int print_real ys))

  -- With memory, a %s between quotes, with any items around it: a JSON reader behind the opening quote reads
  -- exactly the argument, and stands at what the items behind the closing quote render to.
  pub jsonfv-read :
      (front back : List (Item R)) (s : Bytes)
      → All (IsItem R) front
      → All (IsItem R) back
      → (t : Bytes) × (jsonfv memory print_int print_real
            (some (show_items (front ++ literal b'"' ∷ string_item (some s) ∷ literal b'"' ∷ back)))
            (arguments (front ++ literal b'"' ∷ string_item (some s) ∷ literal b'"' ∷ back))
          ≡ written (render print_int print_real front ++ b'"' ∷ t))
        × (read Mode.text t [] ≡ some (s, render print_int print_real back))
  unfolding or_null_text
  jsonfv-read front back s ok_front ok_back =
      let quoted = literal b'"' ∷ string_item (some s) ∷ literal b'"' ∷ back in
      let rest = render print_int print_real back in
      let ne : b'"' ≢ b'%' = omega arith in
      (
        escaped s ++ b'"' ∷ rest,
        jsonfv-render (front ++ quoted)
              (All-append (IsItem R) front quoted ok_front (ne, (tt, (ne, ok_back))))
            ∙ ap written (render-append front quoted),
        read-escaped s (b'"' ∷ rest) [] ∙ closing s rest,
      )
