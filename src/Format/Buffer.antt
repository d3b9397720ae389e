-- ===== src/Format/Buffer.antt =====
-- The buffer of `mnet_jsonfv`: `buf`, `pos` and `cap`.
use mnet.Base.{
  ℕ, zero, suc, ◌+◌, ◌*◌, ◌<◌, ◌≡◌, ◌≢◌, refl, Bool, true, ◌++◌, ◌∷◌, [], Option, none, some, arith,
  leb, if◌then◌else◌, Bytes, length, length-append, Bool-cases, inl, inr,
}

-- buf[0..pos) and cap
pub record Buffer : Type 0 where
  pub text : Bytes
  pub capacity : ℕ

-- `buf[pos++] = c`
unfoldable pub put_byte : Buffer → ℕ → Buffer
put_byte b c = record b { text = b.text ++ c ∷ [] }

-- What becomes of a growth: a buffer or a capacity, the failure of an allocation, or no end of the loop
-- within its fuel.
pub data Growth (A : Type 0) : Type 0 where
  grown : A → Growth A
  no_memory : Growth A
  endless : Growth A

-- `memcpy(buf + pos, w, n); pos += n`, behind a growth
unfoldable pub filled : Bytes → Growth ℕ → Growth Buffer
filled text (grown cap) = grown (record { text = text; capacity = cap })
filled text no_memory = no_memory
filled text endless = endless

module _ (memory : ℕ → Bool) where
  -- `while (need >= cap) { cap *= 2; realloc }`; `memory n` says whether an allocation of n bytes
  -- succeeds. Each round adds at least one to the capacity.
  unfoldable pub grow_loop : ℕ → ℕ → ℕ → Growth ℕ
  grow_loop zero need cap = if leb cap need then endless else grown cap
  grow_loop (suc fuel) need cap =
      let more = grow_loop fuel need (cap * 2) in
      if leb cap need then (if memory (cap * 2) then more else no_memory) else grown cap

  -- `if (pos + 1 >= cap)`, at the head of the loop
  unfoldable pub make_room : Buffer → Option Buffer
  make_room b =
      if leb b.capacity (length b.text + 1)
      then (if memory (b.capacity * 2) then some (record b { capacity = b.capacity * 2 }) else none)
      else some b

  -- The growth of the buffer, and w put behind its text.
  unfoldable pub put_text : Buffer → Bytes → Growth Buffer
  put_text b w =
      filled (b.text ++ w)
        (grow_loop (length b.text + length w + 1) (length b.text + length w + 1) b.capacity)

-- There is room for the NUL behind the text.
abbrev pub IsRoomy : Buffer → Type 0
IsRoomy b = length b.text < b.capacity

module _ (memory : ℕ → Bool) where
  pub grow_loop-lt : (fuel need cap n : ℕ) → grow_loop memory fuel need cap ≡ grown n → need < n
  unfolding grow_loop
  grow_loop-lt zero need cap n h = ground arith
  grow_loop-lt (suc fuel) need cap n h = ground (arith, grow_loop-lt fuel need (cap * 2) n)

  pub grow_loop-some :
      ((n : ℕ) → memory n ≡ true)
      → (fuel need cap : ℕ) → need < cap + fuel
      → 0 < cap
      → (n : ℕ) × (grow_loop memory fuel need cap ≡ grown n)
  unfolding grow_loop
  grow_loop-some all zero need cap h pos = (cap, ground arith)
  grow_loop-some all (suc fuel) need cap h pos =
      let (n, e) = grow_loop-some all fuel need (cap * 2) (omega arith) (omega arith) in
      elim (Bool-cases (leb cap need)) [
        | inl full ↦ (n, rw (full, all (cap * 2)) e)
        | inr free ↦ (cap, rw free refl)
      ]

  -- The loop ends, whatever allocations fail: each round doubles the capacity.
  pub grow_loop-ends :
      (fuel need cap : ℕ) → need < cap + fuel → 0 < cap → grow_loop memory fuel need cap ≢ endless
  unfolding grow_loop
  grow_loop-ends zero need cap h pos = ground arith
  grow_loop-ends (suc fuel) need cap h pos =
      let more = grow_loop-ends fuel need (cap * 2) (omega arith) (omega arith) in ground arith

  -- What `put_text` does with a buffer that has a capacity.
  pub data Puts (b : Buffer) (w : Bytes) : Growth Buffer → Type 0 where
    puts :
        (b' : Buffer) → b'.text ≡ b.text ++ w → length b'.text < b'.capacity → Puts b w (grown b')
    fails : Puts b w no_memory

  pub put_text-Puts : (b : Buffer) (w : Bytes) → 0 < b.capacity → Puts b w (put_text memory b w)
  unfolding put_text filled
  put_text-Puts b w pos = by_growth (grow_loop memory need need b.capacity) refl
    where
      need : ℕ
      need = length b.text + length w + 1

      by_growth :
          (g : Growth ℕ)
          → grow_loop memory need need b.capacity ≡ g
          → Puts b w (filled (b.text ++ w) g)
      by_growth (grown cap) e =
          puts (record { text = b.text ++ w; capacity = cap }) refl
            (omega (arith, length-append b.text w, grow_loop-lt need need b.capacity cap e))
      by_growth no_memory e = fails
      by_growth endless e = absurd (grow_loop-ends need need b.capacity (omega arith) pos e)
