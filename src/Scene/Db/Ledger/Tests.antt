-- ===== src/Scene/Db/Ledger/Tests.antt =====
-- Concrete histories of a result ledger.
use mmorpg_game_server.Common.{ℕ, true, false, some, List, [], ◌∷◌}
use mmorpg_game_server.Common.Map.{insert}
use mmorpg_game_server.Scene.Db.Message.{Msg}
use mmorpg_game_server.Scene.Db.Message.{accepted, backpressure}
use mmorpg_game_server.Scene.Db.Ledger.{DbResultLedger, create, fresh_entry, accept, flush}
use mmorpg_game_server.Scene.Db.Ledger.Step.{Op, finish_op, flush_op, accept_op}

abbrev message : ℕ → Msg
message kind = record {
  head = record {
    task_id = 9;
    db_control = 0;
    msg_type = kind;
    module_id = 1;
    method_id = 2;
    seq = 3;
    session = 4;
    player_id = 5;
    src_worker_id = 0;
    epoch = 6;
    ctx = 7;
    db_shard = 0;
  };
  body = 1 ∷ [];
}

-- The result is there, its delivery meets a full queue, and the request comes again.
abbrev calls : List Op
calls =
    finish_op (message 7) (message 8)
    ∷ flush_op (λ sent m. backpressure) 100
    ∷ accept_op (message 7)
    ∷ flush_op (λ sent m. accepted) 200
    ∷ []

abbrev ended : DbResultLedger
ended =
    flush
      (accept
        (flush
          (record (accept (create 4) (message 7)).1 {
            entries =
                insert 9
                  (record (fresh_entry (message 7)) {
                    result = some (message 8);
                    ready = true;
                    delivered = false;
                  })
                  (accept (create 4) (message 7)).1.entries;
          })
          (λ sent m. backpressure) 100)
        (message 7)).1
      (λ sent m. accepted) 200
