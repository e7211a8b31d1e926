-- ===== src/Scene/Db/Ledger/Step.antt =====
-- Histories of a result ledger (sceneServer/src-cpp/db/taskDelivery.h).
use mmorpg_game_server.Common.{ℕ, Bool, false, ◌&&◌, Option, none, some, List, [], ◌∷◌, ◌==◌}
use mmorpg_game_server.Scene.Db.Message.{Msg}
use mmorpg_game_server.Scene.Db.PendingTasks.{Sender}
use mmorpg_game_server.Scene.Db.Ledger.{
  DbResultLedger, has_capacity, accept, queue_notice, finish, handle_control, flush,
}

pub data Op : Type 0 where
  has_capacity_op : Op
  accept_op : Msg → Op
  queue_notice_op : Msg → Op
  finish_op : Msg → Msg → Op
  handle_control_op : Msg → Op
  flush_op : Sender → ℕ → Op

-- `none` is an exception.
unfoldable pub step : DbResultLedger → Op → Option DbResultLedger
step l has_capacity_op = some (has_capacity l).1
step l (accept_op request) = some (accept l request).1
step l (queue_notice_op notice) = some (queue_notice l notice).1
step l (finish_op request result) = finish l request result
step l (handle_control_op message) = some (handle_control l message).1
step l (flush_op send now) = some (flush l send now)

unfoldable pub run : DbResultLedger → List Op → Option DbResultLedger
unfolding step
run l [] = some l
run l (op ∷ ops) = elim (step l op) [ none ↦ none | some l' ↦ run l' ops ]

-- The operation may acknowledge the task.
abbrev pub acknowledges : ℕ → Op → Bool
acknowledges id (handle_control_op message) =
    message.head.task_id == id && message.head.db_control == 1
acknowledges id _ = false
