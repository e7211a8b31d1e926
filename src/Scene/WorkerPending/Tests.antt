-- ===== src/Scene/WorkerPending/Tests.antt =====
-- Runs of the pending tasks at concrete values.
use mmorpg_game_server.Common.{ℕ, ◌≡◌, refl, ◌≢◌, true, false, some, List, [], ◌∷◌, arith}
use mmorpg_game_server.Scene.WorkerPending.{
  Msg, Limits, limits_valid, positive, DispatchResult, is_accepted, backpressure,
  WorkerPendingTasks, create, empty_queue, submit, cancel_session, pump,
}
use mmorpg_game_server.Scene.WorkerPending.Accounts.{FitLimits}
use mmorpg_game_server.Scene.WorkerPending.History.{
  Inv, Call, submits, pumps, cancels, run, run_pending-Inv,
}
use mmorpg_game_server.Scene.WorkerPending.Lifecycle.{
  per_worker, Submitted, submit_lem, pump-lifecycle, cancel_session_lem,
}

abbrev limits : Limits
limits = record {
  max_business_tasks = 2;
  max_business_bytes = 1000;
  business_timeout_ms = 500;
  per_worker_attempts = 32;
  global_attempts = 128;
  retry_interval_ms = 10;
}

abbrev start : WorkerPendingTasks
start = record { queues = empty_queue ∷ empty_queue ∷ []; limits = limits; cursor = 0 }

abbrev message : Msg
message = record { session = 5; body = 1 ∷ 2 ∷ [] }

limits-FitLimits : FitLimits limits
limits-FitLimits = record { tasks_fit = omega arith; bytes_fit = omega arith }

started : create 2 limits ≡ some start
unfolding create limits_valid positive
started = refl

-- A worker that never takes a task.
abbrev full : Unit {0} → ℕ → Msg → Unit {0} × DispatchResult
full world worker m = (world, backpressure)

abbrev calls : List Call
calls =
    submits backpressure 0 message true 10
    ∷ submits backpressure 0 message false 20
    ∷ pumps (Unit {0}) full tt 30 (λ m. true)
    ∷ cancels 5
    ∷ []

run_pending-Inv_example : Inv (run 64 start calls)
run_pending-Inv_example = run_pending-Inv 64 2 limits start calls limits-FitLimits started

submit_lem_example :
    Submitted
      (run 64 start calls)
      64
      backpressure
      1
      message
      true
      10
      (submit (run 64 start calls) 64 backpressure 1 message true 10).0
      (submit (run 64 start calls) 64 backpressure 1 message true 10).1
submit_lem_example = submit_lem (run 64 start calls) 64 backpressure 1 message true 10

never : (world : Unit {0}) (worker : ℕ) (m : Msg) → (full world worker m).1 ≢ is_accepted
never world worker m e = cc e

pump-lifecycle_example :
    per_worker (pump full (run 64 start calls) 40 (λ m. true) tt).1.1.queues
    ≡ per_worker (run 64 start calls).queues
pump-lifecycle_example = pump-lifecycle full never (run 64 start calls) 40 (λ m. true) tt

cancel_session_lem_test :
    per_worker (cancel_session (run 64 start calls) 5).queues
    ≡ per_worker (run 64 start calls).queues
cancel_session_lem_test = cancel_session_lem (run 64 start calls) 5
