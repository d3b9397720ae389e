-- ===== src/Run/Launching.antt =====
-- How many workers serve behind a launch.
use mnet.Base.{
  ℕ, zero, suc, ◌+◌, ◌≤◌, ◌<◌, ◌≡◌, ◌⊎◌, inl, inr, refl, Bool, true, false, arith, leb, subst, ◌==◌,
  if◌then◌else◌, Bool-cases,
}
use native.Mathlib.Decide.{dec_lt}
use mnet.App.{App}
use mnet.Pool.{capacity_for}
use mnet.Run.{
  Launch, no_listener, no_memory, no_worker, single, pooled, start_loop, with_workers, launch_pool,
  launch, positive_part, at_port, started,
}

-- The workers from i on started up to j, and the j-th, when it was tried, did not.
record IsStarted (creates : ℕ → Bool) (left i j : ℕ) : Type 0 where
  from : i ≤ j
  within : j ≤ i + left
  started : (k : ℕ) → i ≤ k → k < j → creates k ≡ true
  ends : (j ≡ i + left) ⊎ (creates j ≡ false)

start_loop-IsStarted :
    (creates : ℕ → Bool) (left i : ℕ) → IsStarted creates left i (start_loop creates left i)
unfolding start_loop
start_loop-IsStarted creates zero i = record {
  from = omega arith;
  within = omega arith;
  started = λ k h l. absurd (omega arith);
  ends = inl (omega arith);
}
start_loop-IsStarted creates (suc left) i = elim (Bool-cases (creates i)) [
  | inl e ↦ rw e (
      let more = start_loop-IsStarted creates left (suc i) in
      record {
        from = omega (arith, more.from);
        within = omega (arith, more.within);
        started = λ k h l. elim (dec_lt i k) [
          | yes later ↦ more.started k (omega arith) l
          | no now ↦ let here : k ≡ i = omega arith in rw here e
        ];
        ends = elim more.ends [ inl x ↦ inl (omega arith) | inr x ↦ inr x ];
      })
  | inr e ↦ rw e (record {
    from = omega arith;
    within = omega arith;
    started = λ k h l. absurd (omega arith);
    ends = inr e;
  })
]

-- A launch with n workers on an application that asked for `asked`: the first n threads were created, and
-- there are fewer than asked for only when the next could not be.
pub record IsLaunched (creates : ℕ → Bool) (asked n : ℕ) : Type 0 where
  pub some_worker : 1 ≤ n
  pub at_most : n ≤ asked
  pub created : (k : ℕ) → k < n → creates k ≡ true
  pub all_or_failed : (n ≡ asked) ⊎ (creates n ≡ false)

module _ {H M : Type 0} (listens memory : Bool) (creates : ℕ → Bool) (port : ℕ)
    (app : App H M) where
  -- When `mnet_run` goes on with a pool of n workers, at least one thread runs and no more than asked for,
  -- the first n creations succeeded, there are fewer than asked for only when the next creation failed, the
  -- queue has the capacity that belongs to max_connections, the application counts n workers and runs, at the port that
  -- was asked for, and its count of active connections begins at 0.
  pub launch-IsLaunched :
      (capacity n : ℕ)
      → (launch listens memory creates port app).0 ≡ pooled capacity n
      → IsLaunched creates app.workers n
        × (capacity ≡ capacity_for (positive_part app.max_connections))
        × ((launch listens memory creates port app).1.workers ≡ n)
        × ((launch listens memory creates port app).1.running ≡ true)
        × ((launch listens memory creates port app).1.port ≡ port)
        × ((launch listens memory creates port app).1.active_connections ≡ 0)
  unfolding launch launch_pool with_workers started at_port
  launch-IsLaunched capacity n =
      by_tests listens (leb app.workers 1) memory (start_loop creates app.workers 0 == 0) refl
    where
      begun : App H M
      begun = started (at_port port app)

      by_tests :
          (l one m nobody : Bool)
          → (start_loop creates app.workers 0 == 0) ≡ nobody
          → let outcome : Launch × App H M =
              if l
              then (if one
                  then (single, begun)
                  else (if m
                      then (if nobody then (no_worker, record begun { workers = 0 }) else (
                        pooled
                            (capacity_for (positive_part app.max_connections))
                            (start_loop creates app.workers 0),
                        record begun { workers = start_loop creates app.workers 0 },
                      ))
                      else (no_memory, begun)))
              else (no_listener, at_port port app) in
            outcome.0 ≡ pooled capacity n
            → IsLaunched creates app.workers n
              × (capacity ≡ capacity_for (positive_part app.max_connections))
              × (outcome.1.workers ≡ n)
              × (outcome.1.running ≡ true)
              × (outcome.1.port ≡ port)
              × (outcome.1.active_connections ≡ 0)
      by_tests false one m nobody e h = absurd (cc)
      by_tests true true m nobody e h = absurd (cc)
      by_tests true false false nobody e h = absurd (cc)
      by_tests true false true true e h = absurd (cc)
      by_tests true false true false e h =
          let s = start_loop-IsStarted creates app.workers 0 in
          let same : start_loop creates app.workers 0 ≡ n = cc in
          (
            subst (IsLaunched creates app.workers) same (record {
              some_worker = ground arith;
              at_most = omega (arith, s.within);
              created = λ k l. s.started k (omega arith) l;
              all_or_failed = elim s.ends [ inl x ↦ inl (omega arith) | inr x ↦ inr x ];
            }),
            cc,
            same,
            refl,
            refl,
            refl,
          )
