-- ===== src/Parse/Fields/Refused.antt =====
-- Why `parse_headers` gives up: a line that is too long, or more headers than there is room for.
use mnet.Base.{
  ℕ, suc, ◌+◌, ◌≤◌, ◌≡◌, ◌⊎◌, inl, inr, refl, ap, Bool, true, false, ◌||◌, List, [], ◌∷◌, ◌++◌,
  Option, none, some, leb, if◌then◌else◌, ◌>>=◌, arith, Bytes, cut_at, skip_while, length,
  Bool-cases,
}
use mnet.Limits.{max_headers, max_header_line}
use mnet.Header.{name_valid}
use mnet.Parse.Text.{is_blank}
use mnet.Parse.Fields.{Pair, header_loop}

-- A line is kept as a header when a valid name stands in front of its first colon.
abbrev named : Bytes × Option Bytes → Bool
named (name, none) = false
named (name, some v) = name_valid (some name)

-- How many of the lines are kept.
abbrev pub kept : List Bytes → ℕ
kept [] = 0
kept (line ∷ lines) = (if named (cut_at b':' line) then 1 else 0) + kept lines

-- The line that cannot be taken: it is too long, or as many headers as there is room for stand before it.
pub record IsOver (count : ℕ) (lines : List Bytes) : Type 0 where
  pub before : List Bytes
  pub line : Bytes
  pub behind : List Bytes
  pub there : lines ≡ before ++ line ∷ behind
  pub over : (max_header_line ≤ length line) ⊎ (max_headers ≤ count + kept before)

pub header_loop-IsOver :
    (count : ℕ) (lines : List Bytes) → header_loop count lines ≡ none → IsOver count lines
unfolding header_loop
header_loop-IsOver count [] h = absurd (cc)
header_loop-IsOver count (line ∷ lines) h =
    by_room (leb max_headers count || leb max_header_line (length line)) (cut_at b':' line) refl
      refl h (λ n e. header_loop-IsOver n lines e)
  where
    later :
        (n : ℕ)
        → n ≡ count + (if named (cut_at b':' line) then 1 else 0)
        → IsOver n lines
        → IsOver count (line ∷ lines)
    later n e o = record {
      before = line ∷ o.before;
      line = o.line;
      behind = o.behind;
      there = ap (λ l. line ∷ l) o.there;
      over = elim o.over [ inl long ↦ inl long | inr full ↦ inr (omega (arith, e)) ];
    }

    failed_tail : (o : Option (List Pair)) (p : Pair) → (o >>= λ r. some (p ∷ r)) ≡ none → o ≡ none
    failed_tail none p e = refl
    failed_tail (some r) p e = absurd (cc)

    by_name :
        (b : Bool) (name v : Bytes)
        → cut_at b':' line ≡ (name, some v)
        → name_valid (some name) ≡ b
        → (if b
            then (header_loop (suc count) lines >>= λ r. some ((name, skip_while is_blank v) ∷ r))
            else header_loop count lines)
          ≡ none
        → ((n : ℕ) → header_loop n lines ≡ none → IsOver n lines)
        → IsOver count (line ∷ lines)
    by_name true name v e e' h next =
        later (suc count) (rw (e, e') (omega arith)) (next (suc count) (failed_tail _ _ h))
    by_name false name v e e' h next = later count (rw (e, e') (omega arith)) (next count h)

    by_room :
        (b : Bool) (t : Bytes × Option Bytes)
        → (leb max_headers count || leb max_header_line (length line)) ≡ b
        → cut_at b':' line ≡ t
        → (if b then none else elim t.1 [
          | none ↦ header_loop count lines
          | some v ↦
              if name_valid (some t.0)
              then (header_loop (suc count) lines >>= λ r. some ((t.0, skip_while is_blank v) ∷ r))
              else header_loop count lines
        ])
          ≡ none
        → ((n : ℕ) → header_loop n lines ≡ none → IsOver n lines)
        → IsOver count (line ∷ lines)
    by_room true t e e' h next = record {
      before = [];
      line = line;
      behind = lines;
      there = refl;
      over = elim (Bool-cases (leb max_header_line (length line))) [
        | inl long ↦ inl (ground arith)
        | inr short ↦ inr (ground arith)
      ];
    }
    by_room false (name, none) e e' h next = later count (rw e' (omega arith)) (next count h)
    by_room false (name, some v) e e' h next =
        by_name (name_valid (some name)) name v e' refl h next
