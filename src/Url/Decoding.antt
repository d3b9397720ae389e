-- ===== src/Url/Decoding.antt =====
-- The URL decoder against the grammar of percent-encoded text.
use mnet.Base.{
  ℕ, ◌+◌, ◌-◌, ◌*◌, ◌<◌, Bool, true, false, ◌&&◌, leb, if◌then◌else◌, ◌≤◌, ◌^◌, ◌≡◌, ◌≢◌, ◌↔◌, refl,
  ◌∙◌, ap, ==_ne, ◌>>=◌, >>=-eq-some, [], ◌∷◌, ◌++◌, some, none, arith, append_assoc, append-nil,
  Bytes, length, length-append,
}
use native.Mathlib.Decide.{ℕ_discrete}
use mnet.Url.{hex_value, hex_pair, plain_byte, store, decode_loop, decode_ex, returned}
use mnet.App.{pos}

-- The hexadecimal digits and what each stands for.
pub data HexDigit : ℕ → ℕ → Type 0 where
  decimal_digit : {c d : ℕ} → d < 10 → c ≡ b'0' + d → HexDigit c d
  small_letter : {c d : ℕ} → d < 6 → c ≡ b'a' + d → HexDigit c (d + 10)
  capital_letter : {c d : ℕ} → d < 6 → c ≡ b'A' + d → HexDigit c (d + 10)

-- What a byte that starts no escape stands for: a `+` for a space, any other for itself.
pub data Plain : ℕ → ℕ → Type 0 where
  space : {c v : ℕ} → c ≡ b'+' → v ≡ b' ' → Plain c v
  itself : {c v : ℕ} → c ≢ b'+' → v ≡ c → Plain c v

-- `Decodes src out`: src is a sequence of escapes of bytes other than NUL, of `+` and of plain
-- bytes, and out is what they stand for. The first digit of an escape counts sixteen.
pub data Decodes : Bytes → Bytes → Type 0 where
  done : Decodes [] []
  escape :
      {c h l hi lo v : ℕ} {src out : Bytes}
      → c ≡ b'%'
      → HexDigit h hi
      → HexDigit l lo
      → v ≡ 16 * hi + lo
      → v ≢ 0
      → Decodes src out
      → Decodes (c ∷ h ∷ l ∷ src) (v ∷ out)
  plain :
      {c v : ℕ} {src out : Bytes}
      → c ≢ b'%'
      → c ≢ 0
      → Plain c v
      → Decodes src out
      → Decodes (c ∷ src) (v ∷ out)

hex_value-HexDigit : (c d : ℕ) → hex_value c ≡ some d → HexDigit c d
unfolding hex_value
hex_value-HexDigit c d h =
    by_tests (leb b'0' c && leb c b'9') (leb b'a' c && leb c b'f') refl refl h
  where
    by_tests :
        (x y : Bool)
        → (leb b'0' c && leb c b'9') ≡ x
        → (leb b'a' c && leb c b'f') ≡ y
        → (if x
            then some (c - b'0')
            else if y
            then some (c - b'a' + 10)
            else if leb b'A' c && leb c b'F'
            then some (c - b'A' + 10)
            else none)
          ≡ some d
        → HexDigit c d
    by_tests true y e e' h = decimal_digit (ground arith) (ground arith)
    by_tests false true e e' h =
        let is : d ≡ c - b'a' + 10 = ground arith in
        rw is (small_letter (ground arith) (ground arith))
    by_tests false false e e' h =
        let is : d ≡ c - b'A' + 10 = ground arith in
        rw is (capital_letter (ground arith) (ground arith))

HexDigit-hex_value : {c d : ℕ} → HexDigit c d → hex_value c ≡ some d
unfolding hex_value
HexDigit-hex_value (decimal_digit small e) = ground arith
HexDigit-hex_value (small_letter small e) = ground arith
HexDigit-hex_value (capital_letter small e) = ground arith

hex_pair-eq_some :
    (h l v : ℕ)
    → hex_pair h l ≡ some v
    → (hi lo : ℕ) × HexDigit h hi × HexDigit l lo × (v ≡ 16 * hi + lo)
unfolding hex_pair
hex_pair-eq_some h l v e =
    let (hi, first, chain) =
      >>=-eq-some (hex_value h) (λ hi. hex_value l >>= λ lo. some (hi * 16 + lo)) e in
    let (lo, second, last) = >>=-eq-some (hex_value l) (λ lo. some (hi * 16 + lo)) chain in
    (hi, lo, hex_value-HexDigit h hi first, hex_value-HexDigit l lo second, ground arith)

hex_pair_lem :
    {h l hi lo : ℕ} (v : ℕ)
    → HexDigit h hi
    → HexDigit l lo
    → v ≡ 16 * hi + lo
    → hex_pair h l ≡ some v
unfolding hex_pair
hex_pair_lem {h} {l} {hi} {lo} v first second e =
    rw (HexDigit-hex_value first, HexDigit-hex_value second) (ground arith)

plain_byte-Plain : (c : ℕ) → Plain c (plain_byte c)
unfolding plain_byte
plain_byte-Plain c = elim (ℕ_discrete c b'+') [
  | yes e ↦ space e (ground arith)
  | no ne ↦ itself ne (ground arith)
]

Plain-plain_byte : {c v : ℕ} → Plain c v → v ≡ plain_byte c
unfolding plain_byte
Plain-plain_byte (space e e') = ground arith
Plain-plain_byte (itself ne e) = ground arith

-- The loop extends dst by the decoding of the rest of src.
record Extends (size : ℕ) (src dst r : Bytes) : Type 0 where
  tail : Bytes
  whole : r ≡ dst ++ tail
  room : length r < size
  decodes : Decodes src tail

store-eq-some :
    (size v : ℕ) (dst r : Bytes)
    → store size v dst ≡ some r
    → (v ≢ 0) × (length dst + 1 < size) × (r ≡ dst ++ v ∷ [])
unfolding store
store-eq-some size v dst r h = ground arith

plain_byte-ne-zero : (c : ℕ) → plain_byte c ≢ 0 → c ≢ 0
unfolding plain_byte
plain_byte-ne-zero c h = ground arith

-- One round of the loop, with the parts shut.
round_escape :
    (size c h l : ℕ) (src dst : Bytes)
    → c ≡ b'%'
    → decode_loop size (c ∷ h ∷ l ∷ src) dst
      ≡ (hex_pair h l >>= λ v. store size v dst >>= λ dst'. decode_loop size src dst')
unfolding decode_loop
round_escape size c h l src dst e = rw e

round_plain :
    (size c : ℕ) (src dst : Bytes)
    → c ≢ b'%'
    → decode_loop size (c ∷ src) dst
      ≡ (store size (plain_byte c) dst >>= λ dst'. decode_loop size src dst')
unfolding decode_loop
round_plain size c (h ∷ l ∷ src) dst ne = rw (==_ne c b'%' ne)
round_plain size c src dst ne = rw (==_ne c b'%' ne)

round_truncated :
    (size c : ℕ) (src dst : Bytes)
    → c ≡ b'%'
    → length src < 2
    → decode_loop size (c ∷ src) dst ≡ none
unfolding decode_loop
round_truncated size c (h ∷ l ∷ src) dst e short = absurd (omega arith)
round_truncated size c src dst e short = rw e

Extends-cons :
    (size v : ℕ) (src src' dst r : Bytes)
    → ((out : Bytes) → Decodes src out → Decodes src' (v ∷ out))
    → Extends size src (dst ++ v ∷ []) r
    → Extends size src' dst r
Extends-cons size v src src' dst r step x = record {
  tail = v ∷ x.tail;
  whole = x.whole ∙ append_assoc dst (v ∷ []) x.tail;
  room = x.room;
  decodes = step x.tail x.decodes;
}

-- A round that stores v goes on behind it.
stored :
    (size v : ℕ) (src dst r : Bytes)
    → (store size v dst >>= λ dst'. decode_loop size src dst') ≡ some r
    → (v ≢ 0) × (length (dst ++ v ∷ []) < size) × (decode_loop size src (dst ++ v ∷ []) ≡ some r)
stored size v src dst r h =
    let (dst', e, more) = >>=-eq-some (store size v dst) (λ d. decode_loop size src d) h in
    let (ne, fits, whole) = store-eq-some size v dst dst' e in
    (ne, omega (arith, length-append dst (v ∷ [])), rw whole at more)

abbrev Sound : ℕ → Bytes → Type 0
Sound size src =
    (dst r : Bytes) → length dst < size → decode_loop size src dst ≡ some r → Extends size src dst r

Sound-plain :
    (size c : ℕ) (src dst r : Bytes)
    → Sound size src
    → c ≢ b'%'
    → decode_loop size (c ∷ src) dst ≡ some r
    → Extends size (c ∷ src) dst r
Sound-plain size c src dst r ih ne e =
    let (nz, fits, more) =
      stored size (plain_byte c) src dst r (rw (round_plain size c src dst ne) at e) in
    Extends-cons size (plain_byte c) src (c ∷ src) dst r
      (λ out. plain ne (plain_byte-ne-zero c nz) (plain_byte-Plain c))
      (ih (dst ++ plain_byte c ∷ []) r fits more)

Sound-escape :
    (size c h l : ℕ) (src dst r : Bytes)
    → Sound size src
    → c ≡ b'%'
    → decode_loop size (c ∷ h ∷ l ∷ src) dst ≡ some r
    → Extends size (c ∷ h ∷ l ∷ src) dst r
Sound-escape size c h l src dst r ih p e =
    let (v, pair, chain) =
      >>=-eq-some (hex_pair h l) (λ v. store size v dst >>= λ d. decode_loop size src d)
        (rw (round_escape size c h l src dst p) at e) in
    let (nz, fits, more) = stored size v src dst r chain in
    let (hi, lo, first, second, sum) = hex_pair-eq_some h l v pair in
    Extends-cons size v src (c ∷ h ∷ l ∷ src) dst r (λ out. escape p first second sum nz)
      (ih (dst ++ v ∷ []) r fits more)

decode_loop-Sound : (size : ℕ) (src : Bytes) → Sound size src
decode_loop-Sound size [] dst r room h = record {
  tail = [];
  whole = unfold decode_loop in ground (arith, append-nil dst);
  room = unfold decode_loop in ground arith;
  decodes = done;
}
decode_loop-Sound size (c ∷ h ∷ l ∷ src) dst r room e = elim (ℕ_discrete c b'%') [
  | yes p ↦ Sound-escape size c h l src dst r (decode_loop-Sound size src) p e
  | no ne ↦ Sound-plain size c (h ∷ l ∷ src) dst r (decode_loop-Sound size (h ∷ l ∷ src)) ne e
]
decode_loop-Sound size (c ∷ h ∷ []) dst r room e = elim (ℕ_discrete c b'%') [
  | yes p ↦ absurd (cc (round_truncated size c (h ∷ []) dst p (omega arith)))
  | no ne ↦ Sound-plain size c (h ∷ []) dst r (decode_loop-Sound size (h ∷ [])) ne e
]
decode_loop-Sound size (c ∷ []) dst r room e = elim (ℕ_discrete c b'%') [
  | yes p ↦ absurd (cc (round_truncated size c [] dst p (omega arith)))
  | no ne ↦ Sound-plain size c [] dst r (decode_loop-Sound size []) ne e
]

store_fits :
    (size v : ℕ) (src dst out : Bytes)
    → v ≢ 0
    → length dst + length (v ∷ out) < size
    → (store size v dst >>= λ d. decode_loop size src d) ≡ decode_loop size src (dst ++ v ∷ [])
unfolding store
store_fits size v src dst out nz fits = ground arith

plain_byte-of_ne : (c : ℕ) → c ≢ 0 → plain_byte c ≢ 0
unfolding plain_byte
plain_byte-of_ne c h = ground arith

-- A text that decodes, into a buffer with room for the result, is decoded.
decode_loop_complete :
    (size : ℕ) {src out : Bytes} (dst : Bytes)
    → Decodes src out
    → length dst + length out < size
    → decode_loop size src dst ≡ some (dst ++ out)
decode_loop_complete size dst done fits = unfold decode_loop in ground (arith, append-nil dst)
decode_loop_complete size dst (escape {c} {h} {l} {hi} {lo} {v} {src} {out} p first second sum nz d)
      fits =
    rw
      (
        round_escape size c h l src dst p,
        hex_pair_lem v first second sum,
        store_fits size v src dst out nz fits,
      )
      (decode_loop_complete size (dst ++ v ∷ []) d (omega (arith, length-append dst (v ∷ [])))
        ∙ ap some (append_assoc dst (v ∷ []) out))
decode_loop_complete size dst (plain {c} {v} {src} {out} ne nz is d) fits =
    let e = Plain-plain_byte is in
    rw
      (
        round_plain size c src dst ne,
        ← e,
        store_fits size v src dst out (rw e (plain_byte-of_ne c nz)) fits,
      )
      (decode_loop_complete size (dst ++ v ∷ []) d (omega (arith, length-append dst (v ∷ [])))
        ∙ ap some (append_assoc dst (v ∷ []) out))

decode_ex_pos :
    (src : Bytes) (size : ℕ) → 0 < size → decode_ex (some src) size ≡ decode_loop size src []
unfolding decode_ex
decode_ex_pos src size h = ground arith

decode_ex_size : (src out : Bytes) (size : ℕ) → decode_ex (some src) size ≡ some out → 0 < size
unfolding decode_ex
decode_ex_size src out size h = ground arith

pub decode_ex_sound :
    (src out : Bytes) (size : ℕ)
    → decode_ex (some src) size ≡ some out
    → Decodes src out × (length out < size)
decode_ex_sound src out size h =
    let pos = decode_ex_size src out size h in
    let x = decode_loop-Sound size src [] out pos (rw (decode_ex_pos src size pos) at h) in
    (rw x.whole x.decodes, x.room)

pub decode_ex_complete :
    (src out : Bytes) (size : ℕ)
    → Decodes src out
    → length out < size
    → decode_ex (some src) size ≡ some out
decode_ex_complete src out size d fits =
    rw (decode_ex_pos src size (omega arith)) (decode_loop_complete size [] d (omega arith))

returned-short : (out : Bytes) → length out < 2 ^ 31 → returned (some out) ≡ pos (length out)
unfolding returned
returned-short out h = ground arith

-- `mnet_url_decode_ex` succeeds exactly on the texts that the grammar decodes into fewer than
-- dst_size bytes, and then writes their decoding. (It refuses a malformed or truncated escape, a
-- NUL and a result that does not fit; it never truncates.) It then returns the number of bytes, when that
-- is below 2 ^ 31, so that the cast to int keeps it.
pub decode_ex_iff :
    (src out : Bytes) (dst_size : ℕ)
    → ((decode_ex (some src) dst_size ≡ some out) ↔ (Decodes src out × (length out < dst_size)))
      × (decode_ex (some src) dst_size ≡ some out
          → length out < 2 ^ 31
          → returned (decode_ex (some src) dst_size) ≡ pos (length out))
decode_ex_iff src out dst_size = (
  (decode_ex_sound src out dst_size, λ h. decode_ex_complete src out dst_size h.0 h.1),
  λ h small. ap returned h ∙ returned-short out small,
)

-- A decoding is no longer than its source, so a buffer as long as the source is always enough.
pub length-Decodes : {src out : Bytes} → Decodes src out → length out ≤ length src
length-Decodes done = omega arith
length-Decodes (escape p first second sum nz d) = omega (arith, length-Decodes d)
length-Decodes (plain ne nz e d) = omega (arith, length-Decodes d)
