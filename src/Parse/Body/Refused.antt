-- ===== src/Parse/Body/Refused.antt =====
-- Why `read_full_body` gives no body.
use mnet.Base.{
  ℕ, zero, suc, ◌+◌, ◌-◌, ◌≤◌, ◌<◌, ◌≡◌, ◌≢◌, ◌⊎◌, inl, inr, refl, sym, subst, Bool, true, false,
  List, [], ◌∷◌, ◌++◌, Option, none, some, arith, Bytes, length, length-append, length-take, take,
  drop, skip_while, ltb, leb, ◌==◌, if◌then◌else◌, Bool-cases,
}
use mnet.Parse.Text.{c_str, is_blank}
use mnet.Parse.Length.{
  Failure, too_large, bad_length, duplicate_length, transfer_encoding, Parsed, failed, length_is,
  line_matches, content_length_needle, transfer_encoding_needle, digits_loop, parse_length,
  content_length,
}
use mnet.Parse.Length.Value.{zero_digits}
use mnet.Parse.Length.Refused.{
  IsNumber, digits_loop-within, parse_length-too_large, parse_length-IsNumber,
}
use mnet.Parse.Body.{
  Event, data_ready, failure, no_body, body, recv_loop, body_of_length, body_of_parsed,
}

length_is-injective : (m n : ℕ) → length_is m ≡ length_is n → m ≡ n
length_is-injective m n h = cc

take_pos : (n c : ℕ) (t : Bytes) → 1 ≤ n → take n (c ∷ t) ≡ c ∷ take (n - 1) t
take_pos zero c t h = absurd (omega arith)
take_pos (suc n) c t h = let e : suc n - 1 ≡ n = omega arith in rw e refl

-- The values of the Content-Length headers, and what stands behind the names of the Transfer-Encoding headers.
abbrev pub lengths : ℕ → Bytes → List Bytes
lengths i buffer = line_matches content_length_needle i 0 true (c_str buffer)

abbrev pub encodings : ℕ → Bytes → List Bytes
encodings i buffer = line_matches transfer_encoding_needle i 0 true (c_str buffer)

-- The bytes that are received before the connection fails or ends.
abbrev pub arrived : List Event → ℕ
arrived [] = 0
arrived (failure ∷ events) = 0
arrived (data_ready [] ∷ events) = 0
arrived (data_ready (c ∷ t) ∷ events) = length (c ∷ t) + arrived events

-- Why no body is found behind headers that end at i, with their blank line of k bytes.
abbrev pub BodyCause : ℕ → Bytes → List Event → ℕ → ℕ → Failure → Type 0
BodyCause max buffer events i k duplicate_length = 2 ≤ length (lengths i buffer)
BodyCause max buffer events i k transfer_encoding =
    (length (lengths i buffer) ≤ 1) × (encodings i buffer ≢ [])
BodyCause max buffer events i k bad_length =
    (encodings i buffer ≡ [])
    × (val : Bytes) × (lengths i buffer ≡ val ∷ [])
    × ((n : ℕ) → ¬ IsNumber val n)
BodyCause max buffer events i k too_large =
    ((val : Bytes) × (n : ℕ) × (lengths i buffer ≡ val ∷ []) × IsNumber val n × (max < n))
    ⊎ ((n : ℕ) × (content_length max i (c_str buffer) ≡ length_is n)
        × (n ≤ max)
        × (length (drop (i + k) buffer) + arrived events < n))

-- All that is received does not make the body whole.
recv_loop-none :
    (len : ℕ) (have : Bytes) (events : List Event)
    → recv_loop len have events ≡ none
    → length have + arrived events < len
unfolding recv_loop
recv_loop-none len have [] h = ground arith
recv_loop-none len have (failure ∷ events) h = ground arith
recv_loop-none len have (data_ready [] ∷ events) h = ground arith
recv_loop-none len have (data_ready (c ∷ t) ∷ events) h =
    elim (Bool-cases (leb len (length have))) [
      | inl e ↦ absurd (cc (rw e at h))
      | inr e ↦
          let n = len - length have - 1 in
          let more : take (len - length have) (c ∷ t) ≡ c ∷ take n t =
            take_pos (len - length have) c t (ground arith) in
          let rest : recv_loop len (have ++ c ∷ take n t) events ≡ none =
            next (take (len - length have) (c ∷ t)) (c ∷ take n t) more (rw e at h) in
          let ih = recv_loop-none len (have ++ c ∷ take n t) events rest in
          omega (arith, length-append have (c ∷ take n t), length-take n t)
    ]
  where
    next :
        (b b' : Bytes)
        → b ≡ b'
        → elim b as (λ _. Option Bytes) [ [] ↦ none | d ∷ u ↦ recv_loop len (have ++ d ∷ u) events ]
          ≡ none
        → elim b' as (λ _. Option Bytes) [
          | [] ↦ none
          | d ∷ u ↦ recv_loop len (have ++ d ∷ u) events
        ]
          ≡ none
    next b b' e x =
        subst
          (λ y.
            elim y as (λ _. Option Bytes) [
              | [] ↦ none
              | d ∷ u ↦ recv_loop len (have ++ d ∷ u) events
            ]
            ≡ none)
          e x

parse_length-le-max : (max n : ℕ) (val : Bytes) → parse_length max val ≡ length_is n → n ≤ max
unfolding parse_length
parse_length-le-max max n val h =
    let last = (digits_loop max (skip_while is_blank val) zero_digits).0 in
    let within = digits_loop-within max (skip_while is_blank val) zero_digits (ground arith) in
    ground arith

-- A length that is accepted is within the limit.
content_length-le-max :
    (max i n : ℕ) (buffer : Bytes) → content_length max i buffer ≡ length_is n → n ≤ max
unfolding content_length
content_length-le-max max i n buffer h =
    by_lengths (line_matches content_length_needle i 0 true buffer)
      (line_matches transfer_encoding_needle i 0 true buffer) h
  where
    by_lengths :
        (ls es : List Bytes)
        → (elim ls [
          | val ∷ (_ ∷ _) ↦ failed duplicate_length
          | vals ↦ elim es [
            | _ ∷ _ ↦ failed transfer_encoding
            | [] ↦ elim vals [ [] ↦ length_is 0 | val ∷ _ ↦ parse_length max val ]
          ]
        ])
          ≡ length_is n
        → n ≤ max
    by_lengths (val ∷ (val' ∷ ls)) es h' = absurd (cc)
    by_lengths [] [] h' = let zero_is = length_is-injective 0 n h' in omega arith
    by_lengths [] (x ∷ es) h' = absurd (cc)
    by_lengths (val ∷ []) [] h' = parse_length-le-max max n val h'
    by_lengths (val ∷ []) (x ∷ es) h' = absurd (cc)

parse_length-kinds :
    (max : ℕ) (val : Bytes) (f : Failure)
    → parse_length max val ≡ failed f
    → (f ≡ too_large) ⊎ (f ≡ bad_length)
unfolding parse_length
parse_length-kinds max val f h = by_tests _ _ _ h
  where
    by_tests :
        (plain overflow : Bool) (n : ℕ)
        → (if plain
            then (if overflow then failed too_large else length_is n)
            else failed bad_length)
          ≡ failed f
        → (f ≡ too_large) ⊎ (f ≡ bad_length)
    by_tests true true n e = inl (cc)
    by_tests true false n e = absurd (cc)
    by_tests false overflow n e = inr (cc)

content_length-failed :
    (max i k : ℕ) (buffer : Bytes) (events : List Event) (f : Failure)
    → content_length max i (c_str buffer) ≡ failed f
    → BodyCause max buffer events i k f
unfolding content_length
content_length-failed max i k buffer events f h =
    by_lengths (lengths i buffer) (encodings i buffer) refl refl h
  where
    by_value :
        (val : Bytes) (f' : Failure)
        → lengths i buffer ≡ val ∷ []
        → encodings i buffer ≡ []
        → parse_length max val ≡ failed f'
        → BodyCause max buffer events i k f'
    by_value val too_large e no_encoding h' =
        let (n, is, beyond) = parse_length-too_large max val h' in inl (val, n, e, is, beyond)
    by_value val bad_length e no_encoding h' =
        (no_encoding, val, e, λ n is. parse_length-IsNumber max val n is h')
    by_value val duplicate_length e no_encoding h' =
        elim (parse_length-kinds max val duplicate_length h') [
          | inl x ↦ absurd (cc)
          | inr x ↦ absurd (cc)
        ]
    by_value val transfer_encoding e no_encoding h' =
        elim (parse_length-kinds max val transfer_encoding h') [
          | inl x ↦ absurd (cc)
          | inr x ↦ absurd (cc)
        ]

    given :
        {x y : Failure}
        → failed x ≡ failed y
        → BodyCause max buffer events i k x
        → BodyCause max buffer events i k y
    given {x} {y} e c = let same : x ≡ y = cc in subst (BodyCause max buffer events i k) same c

    by_lengths :
        (ls es : List Bytes)
        → lengths i buffer ≡ ls
        → encodings i buffer ≡ es
        → (elim ls [
          | val ∷ (_ ∷ _) ↦ failed duplicate_length
          | vals ↦ elim es [
            | _ ∷ _ ↦ failed transfer_encoding
            | [] ↦ elim vals [ [] ↦ length_is 0 | val ∷ _ ↦ parse_length max val ]
          ]
        ])
          ≡ failed f
        → BodyCause max buffer events i k f
    by_lengths (val ∷ (val' ∷ ls)) es e e' h' = given h' (rw e (omega arith))
    by_lengths [] [] e e' h' = absurd (cc)
    by_lengths [] (x ∷ es) e e' h' = given h' (rw e (omega arith), λ none. absurd (cc))
    by_lengths (val ∷ []) [] e e' h' = by_value val f e e' h'
    by_lengths (val ∷ []) (x ∷ es) e e' h' = given h' (rw e (omega arith), λ none. absurd (cc))

body_of_length-none :
    (max offset n : ℕ) (buffer : Bytes) (events : List Event) (f : Failure)
    → body_of_length max offset buffer n events ≡ no_body f
    → (f ≡ too_large)
      × ((max < n)
          ⊎ ((length (drop offset buffer) < n) × (recv_loop n (drop offset buffer) events ≡ none)))
unfolding body_of_length
body_of_length-none max offset n buffer events f h =
    by_tests (n == 0) (ltb max n) (leb n (length (drop offset buffer)))
      (recv_loop n (drop offset buffer) events) refl refl refl h
  where
    by_tests :
        (empty long whole : Bool) (o : Option Bytes)
        → ltb max n ≡ long
        → leb n (length (drop offset buffer)) ≡ whole
        → recv_loop n (drop offset buffer) events ≡ o
        → (if empty
            then body false []
            else if long
            then no_body too_large
            else if whole
            then body false (take n (drop offset buffer))
            else elim o [ none ↦ no_body too_large | some full_body ↦ body true full_body ])
          ≡ no_body f
        → (f ≡ too_large)
          × ((max < n)
              ⊎ ((length (drop offset buffer) < n)
                  × (recv_loop n (drop offset buffer) events ≡ none)))
    by_tests true long whole o e e' e'' x = absurd (cc)
    by_tests false true whole o e e' e'' x = (cc, inl (ground arith))
    by_tests false false true o e e' e'' x = absurd (cc)
    by_tests false false false none e e' e'' x = (cc, inr (ground arith, e''))
    by_tests false false false (some full_body) e e' e'' x = absurd (cc)

pub body_of_parsed-none :
    (max i k : ℕ) (buffer : Bytes) (events : List Event) (f : Failure) (p : Parsed)
    → content_length max i (c_str buffer) ≡ p
    → body_of_parsed max (i + k) buffer events p ≡ no_body f
    → BodyCause max buffer events i k f
unfolding body_of_parsed
body_of_parsed-none max i k buffer events f (failed f') e h =
    let same : f' ≡ f = cc in
    subst (BodyCause max buffer events i k) same (content_length-failed max i k buffer events f' e)
body_of_parsed-none max i k buffer events f (length_is n) e h =
    let (kind, why) = body_of_length-none max (i + k) n buffer events f h in
    let small = content_length-le-max max i n (c_str buffer) e in
    let short : length (drop (i + k) buffer) + arrived events < n = elim why [
      | inl beyond ↦ absurd (omega arith)
      | inr missing ↦ recv_loop-none n (drop (i + k) buffer) events missing.1
    ] in
    subst (BodyCause max buffer events i k) (sym kind) (inr (n, e, small, short))
