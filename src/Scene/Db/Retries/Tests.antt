-- ===== src/Scene/Db/Retries/Tests.antt =====
-- Concrete rounds.
use mmorpg_game_server.Common.{ℕ, ◌+◌, ◌≤◌, ◌<◌, ◌≡◌, refl, List, [], ◌∷◌, arith, length, All}
use mmorpg_game_server.Scene.Db.Message.{Msg}
use mmorpg_game_server.Scene.Db.Retries.{
  ResultClass, DbTask, DbResult, Entry, capacity, max_attempts, refuses, schedule, tick,
}
use mmorpg_game_server.Scene.Db.Retries.Served.{served, tick-served}
use mmorpg_game_server.Scene.Db.Retries.Rounds.{due, work, IsRetry, tick-Round, schedule-accepted}

abbrev request : Msg
request = record {
  head = record {
    task_id = 9;
    db_control = 0;
    msg_type = 7;
    module_id = 1;
    method_id = 2;
    seq = 3;
    session = 4;
    player_id = 5;
    src_worker_id = 0;
    epoch = 6;
    ctx = 7;
    db_shard = 0;
  };
  body = [];
}

abbrev task : DbTask
task = record { kind = 4; encoded = [] }

abbrev retry_result : DbResult
retry_result = record { classification = ResultClass.retryable; encoded = [] }

-- Every execution may be tried again.
abbrev execute : ℕ → DbTask → DbResult
execute n t = retry_result

-- One entry is due after its first execution, one after its second, and one is not due.
abbrev entries : List Entry
entries =
    record { request = request; task = task; attempts = 1; next_at = 100 }
    ∷ record { request = request; task = task; attempts = 1; next_at = 900 }
    ∷ record { request = request; task = task; attempts = 2; next_at = 200 }
    ∷ []

tick-Round_test :
    (length (tick execute 500 entries).1 + length (tick execute 500 entries).0 ≡ 3)
    × All IsRetry (tick execute 500 entries).1
    × (due 500 (tick execute 500 entries).1 ≡ 0)
    × (work (tick execute 500 entries).1 + 2 ≤ 5)
tick-Round_test = tick-Round execute 500 entries (omega arith)

tick-served_example : tick execute 500 entries ≡ served execute 500 16 entries
tick-served_example = tick-served execute 500 entries

schedule-accepted_test :
    (0 < 1)
    × (1 < max_attempts)
    × (length (schedule entries request task retry_result 1 500).1 ≤ capacity)
    × (due 500 (schedule entries request task retry_result 1 500).1 ≡ 2)
unfolding schedule refuses
schedule-accepted_test = schedule-accepted entries request task retry_result 1 500 refl
