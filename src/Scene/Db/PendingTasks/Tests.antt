-- ===== src/Scene/Db/PendingTasks/Tests.antt =====
-- Concrete histories of the pending database tasks.
use mmorpg_game_server.Common.{ℕ, ◌≤◌, ◌≡◌, refl, true, false, some, List, [], ◌∷◌, length}
use mmorpg_game_server.Scene.Db.PendingTasks.{PendingDbTasks, Sender, create, submit, max_tasks}
use mmorpg_game_server.Scene.Db.Message.{Msg, accepted, backpressure}
use mmorpg_game_server.Scene.Db.PendingTasks.Step.{
  Op, submit_op, complete_op, tick_op, tick_controls_op, Seen, step, run, SameMap, Runs,
}
use mmorpg_game_server.Scene.Db.PendingTasks.Policy.{run_index-Runs}
use mmorpg_game_server.Scene.Db.PendingTasks.Capacity.{run-capacity}

abbrev message : ℕ → ℕ → Msg
message kind id = record {
  head = record {
    task_id = id;
    db_control = 0;
    msg_type = kind;
    module_id = 1;
    method_id = 2;
    seq = 3;
    session = 4;
    player_id = 5;
    src_worker_id = 0;
    epoch = 6;
    ctx = 7;
    db_shard = 0;
  };
  body = 1 ∷ [];
}

abbrev takes_all : Sender
takes_all sent m = accepted

-- One slot is free.
abbrev takes_one : Sender
takes_one [] m = accepted
takes_one (x ∷ sent) m = backpressure

abbrev is_full : Sender
is_full sent m = backpressure

-- Two tasks meet a full queue; one is sent by a later round and the other by the next, and the
-- first one completes and is acknowledged.
abbrev life : List Op
life =
    submit_op (message 7 9) 1 0 is_full
    ∷ submit_op (message 7 10) 2 0 is_full
    ∷ tick_op 100 takes_one
    ∷ tick_op 200 takes_all
    ∷ complete_op (message 8 9) 200
    ∷ tick_controls_op 300 takes_all
    ∷ []

run_index-Runs_example :
    (seen : List Seen) × (p : PendingDbTasks) × (q : PendingDbTasks) × (run (create true) life
      ≡ some (seen, p))
    × Runs (create false) life seen q
    × SameMap p.tasks q.tasks
run_index-Runs_example = run_index-Runs life

abbrev one_submit : List Op
one_submit = submit_op (message 7 9) 1 0 is_full ∷ []

run-capacity_example : length (submit (create true) (message 7 9) 1 0 is_full).1.tasks ≤ max_tasks
unfolding run step
run-capacity_example =
    run-capacity true one_submit ((submit (create true) (message 7 9) 1 0 is_full).0 ∷ [])
      (submit (create true) (message 7 9) 1 0 is_full).1 refl
