-- ===== src/Format/Scan.antt =====
-- src/mnet_response.c, `mnet_jsonfv`: the directives that stand at the head of a format are found.
use mnet.Base.{
  ℕ, ◌+◌, ◌-◌, ◌*◌, ◌≡◌, ◌≢◌, refl, ◌∙◌, inl, inr, true, false, ◌||◌, [], ◌∷◌, ◌++◌, some, arith,
  append_assoc, ◌==◌, Bytes, codes, All, Bool-cases,
}
use mnet.Header.{has}
use mnet.App.{decimal}
use mnet.Parse.Length.{is_digit}
use mnet.Parse.Length.Value.{value, IsDigits}
use mnet.Response.Numbers.{decimal-value, decimal-IsDigits}
use mnet.Client.{digits_value}
use mnet.Format.{
  percent, cut, string, char, number, is_conversion, scan_conversion, collected, general,
  behind_dot, directive,
}
use mnet.Format.Items.{is_precision_string, starts_number, IsSpec}

digits_value-stop :
    (n : ℕ) (ds : Bytes) (c : ℕ) (rest : Bytes)
    → IsDigits ds
    → is_digit c ≡ false
    → digits_value n (ds ++ c ∷ rest) ≡ (value n ds, c ∷ rest)
unfolding digits_value
digits_value-stop n [] c rest h e = rw e refl
digits_value-stop n (d ∷ ds) c rest h e =
    rw h.0 (digits_value-stop (n * 10 + (d - b'0')) ds c rest h.1 e)

pub directive-cut :
    (n : ℕ) (rest : Bytes) → directive (b'.' ∷ decimal n ++ b's' ∷ rest) ≡ cut n rest
unfolding directive behind_dot
directive-cut n rest =
    rw
      (
        digits_value-stop 0 (decimal n) b's' rest (decimal-IsDigits n) (unfold is_digit in refl),
        decimal-value n,
      )
      refl

pub directive-string : (rest : Bytes) → directive (b's' ∷ rest) ≡ string rest
unfolding directive general
directive-string rest = refl

pub directive-char : (rest : Bytes) → directive (b'c' ∷ rest) ≡ char rest
unfolding directive general
directive-char rest = refl

pub directive-percent : (rest : Bytes) → directive (b'%' ∷ rest) ≡ percent rest
unfolding directive
directive-percent rest = refl

scan_conversion-body :
    (body : Bytes) (conv : ℕ) (rest : Bytes)
    → All (λ c. (c == b'%' || is_conversion c) ≡ false) body
    → is_conversion conv ≡ true
    → scan_conversion (body ++ conv ∷ rest) ≡ some (body, conv, rest)
unfolding scan_conversion
scan_conversion-body [] conv rest h e = rw e (ground arith)
scan_conversion-body (c ∷ body) conv rest h e =
    rw (h.0, scan_conversion-body body conv rest h.1 e) refl

-- A conversion character is no digit, so what stops a run of digits is there.
digits_value-rest :
    (n : ℕ) (s : Bytes) (conv : ℕ) (rest : Bytes)
    → is_digit conv ≡ false
    → (c : ℕ) × (t : Bytes) × ((digits_value n (s ++ conv ∷ [])).1 ≡ c ∷ t)
      × (m : ℕ) × (digits_value n (s ++ conv ∷ rest) ≡ (m, c ∷ (t ++ rest)))
unfolding digits_value
digits_value-rest n [] conv rest e = (conv, [], rw e refl, n, rw e refl)
digits_value-rest n (d ∷ s) conv rest e = elim (Bool-cases (is_digit d)) [
  | inl digit ↦
      let (c, t, a, m, b) = digits_value-rest (n * 10 + (d - b'0')) s conv rest e in
      (c, t, rw digit a, m, rw digit b)
  | inr other ↦
      (d, s ++ conv ∷ [], rw other refl, n, rw (other, append_assoc s (conv ∷ []) rest) refl)
]

conversion-other :
    (c : ℕ)
    → is_conversion c ≡ true
    → (is_digit c ≡ false) × (c ≢ b's') × (c ≢ b'.') × (c ≢ b'*') × (c ≢ b'%')
unfolding is_conversion has is_digit
conversion-other c h = ground arith

general-number :
    (c : ℕ) (f body : Bytes) (conv : ℕ) (rest : Bytes)
    → scan_conversion (c ∷ f) ≡ some (body, conv, rest)
    → c ≢ b's'
    → c ≢ b'c'
    → general c f ≡ number body conv rest
unfolding general collected
general-number c f body conv rest scanned s k = ground (arith, scanned)

-- A text at whose head no other directive stands.
directive-general :
    (c : ℕ) (f : Bytes)
    → has (codes "%*sc") c ≡ false
    → (c ≡ b'.' → behind_dot f (digits_value 0 f) ≡ general c f)
    → directive (c ∷ f) ≡ general c f
unfolding directive has
directive-general c f h dot = elim (Bool-cases (c == b'.')) [
  | inl e ↦ ground (arith, dot (ground arith))
  | inr e ↦ ground arith
]

behind_dot-general :
    (f : Bytes) (m d : ℕ) (t : Bytes)
    → digits_value 0 f ≡ (m, d ∷ t)
    → d ≢ b's'
    → behind_dot f (digits_value 0 f) ≡ general b'.' f
unfolding behind_dot
behind_dot-general f m d t e h = rw e (ground arith)

no_string : (d : ℕ) (t : Bytes) (s : Bytes) → s ≡ d ∷ t → is_precision_string s ≡ false → d ≢ b's'
no_string d t [] e h = absurd (cc)
no_string d t (x ∷ s) e h = ground arith

starts-has : (c : ℕ) (f : Bytes) → starts_number (c ∷ f) ≡ true → has (codes "%*sc") c ≡ false
unfolding has
starts-has c f h = ground arith

starts-dot :
    (c : ℕ) (f : Bytes)
    → starts_number (c ∷ f) ≡ true
    → c ≡ b'.'
    → is_precision_string (digits_value 0 f).1 ≡ false
unfolding has
starts-dot c f h e = ground arith

has-ne : (c : ℕ) → has (codes "%*sc") c ≡ false → (c ≢ b's') × (c ≢ b'c')
unfolding has
has-ne c h = ground arith

pub directive-number :
    (body : Bytes) (conv : ℕ) (rest : Bytes)
    → IsSpec body conv
    → directive (body ++ conv ∷ rest) ≡ number body conv rest
directive-number [] conv rest h =
    let other = conversion-other conv h.conversion in
    let head = starts-has conv [] h.starts in
    directive-general conv rest head (λ e. absurd (other.2 e))
    ∙ general-number conv rest [] conv rest (scan_conversion-body [] conv rest tt h.conversion)
        (has-ne conv head).0 (has-ne conv head).1
directive-number (c ∷ body) conv rest h =
    let head = starts-has c (body ++ conv ∷ []) h.starts in
    let (d, t, single, m, whole) =
      digits_value-rest 0 body conv rest (conversion-other conv h.conversion).0 in
    let dot : c ≡ b'.'
        → behind_dot (body ++ conv ∷ rest) (digits_value 0 (body ++ conv ∷ rest))
          ≡ general c (body ++ conv ∷ rest) =
      λ e. rw e (
        behind_dot-general (body ++ conv ∷ rest) m d (t ++ rest) whole
          (no_string d t _ single (starts-dot c (body ++ conv ∷ []) h.starts e))) in
    directive-general c (body ++ conv ∷ rest) head dot
    ∙ general-number c (body ++ conv ∷ rest) (c ∷ body) conv rest
        (scan_conversion-body (c ∷ body) conv rest h.plain h.conversion) (has-ne c head).0
        (has-ne c head).1
