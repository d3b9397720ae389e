-- ===== src/Run/Tests.antt =====
-- A launch whose third thread cannot be created, and a single-threaded run.
use mnet.Base.{ℕ, ◌≡◌, refl, Bool, true, false, [], ◌∷◌, ltb}
use mnet.App.{App, create, pos}
use mnet.Pool.{capacity_for}
use mnet.Run.{
  connection, interrupted, serves, closes, stops, single_loop, start_loop, no_worker, pooled,
  with_workers, launch_pool, launch, positive_part, at_port, started,
}
use mnet.Run.Single.{single_loop-in_order}
use mnet.Run.Launching.{IsLaunched, launch-IsLaunched}

abbrev two : ℕ → Bool
two k = ltb k 2

abbrev four : App ℕ ℕ
unfolding create
four = record create { workers = 4 }

launched : (launch true true two 8080 four).0 ≡ pooled 128 2
unfolding launch launch_pool with_workers started at_port positive_part start_loop capacity_for four
launched = refl

nobody : (launch true true (λ k. false) 8080 four).0 ≡ no_worker
unfolding launch launch_pool with_workers started at_port positive_part start_loop capacity_for four
nobody = refl

launch-IsLaunched_example :
    IsLaunched two 4 2
    × (128 ≡ capacity_for (positive_part (pos 0)))
    × ((launch true true two 8080 four).1.workers ≡ 2)
    × ((launch true true two 8080 four).1.running ≡ true)
    × ((launch true true two 8080 four).1.port ≡ 8080)
    × ((launch true true two 8080 four).1.active_connections ≡ 0)
unfolding four
launch-IsLaunched_example = launch-IsLaunched true true two 8080 four 128 2 launched

single_loop-in_order_example :
    single_loop 1 0 (
      (true, connection 7)
      ∷ (true, interrupted)
      ∷ (true, connection 8)
      ∷ (false, connection 9)
      ∷ [])
    ≡ serves 7 ∷ closes 7 ∷ serves 8 ∷ closes 8 ∷ stops ∷ []
single_loop-in_order_example =
    single_loop-in_order 1 (
      (true, connection 7)
      ∷ (true, interrupted)
      ∷ (true, connection 8)
      ∷ (false, connection 9)
      ∷ [])
