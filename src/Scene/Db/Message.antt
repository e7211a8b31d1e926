-- ===== src/Scene/Db/Message.antt =====
-- The messages of the database channels (sceneServer/src-cpp/common/msg.h and msgBus.h).
use mmorpg_game_server.Common.{ℕ, Bool, true, false, ◌&&◌, List, [], ◌∷◌, ◌==◌, if◌then◌else◌}

-- `MsgHead`, with the members that the delivery reads or compares.
pub record MsgHead : Type 0 where
  pub task_id : ℕ
  pub db_control : ℕ
  pub msg_type : ℕ
  pub module_id : ℕ
  pub method_id : ℕ
  pub seq : ℕ
  pub session : ℕ
  pub player_id : ℕ
  pub src_worker_id : ℕ
  pub epoch : ℕ
  pub ctx : ℕ
  pub db_shard : ℕ

pub record Msg : Type 0 where
  pub head : MsgHead
  pub body : List ℕ

abbrev pub task_mysql : ℕ
task_mysql = 7

abbrev pub result_mysql : ℕ
result_mysql = 8

abbrev pub task_redis : ℕ
task_redis = 11

abbrev pub result_redis : ℕ
result_redis = 12

abbrev pub control_mysql : ℕ
control_mysql = 13

abbrev pub control_redis : ℕ
control_redis = 14

abbrev pub db_status : ℕ
db_status = 15

pub data DispatchResult : Type 0 where
  accepted backpressure target_stopped invalid_target invalid_message : DispatchResult

-- `IsAccepted`
pub is_accepted : DispatchResult → Bool
is_accepted accepted = true
is_accepted _ = false

-- `kInvalidTarget` and `kInvalidMessage`
pub is_invalid : DispatchResult → Bool
is_invalid invalid_target = true
is_invalid invalid_message = true
is_invalid _ = false

-- `==` on the bodies.
unfoldable pub body_eq : List ℕ → List ℕ → Bool
body_eq [] [] = true
body_eq [] (y ∷ ys) = false
body_eq (x ∷ xs) [] = false
body_eq (x ∷ xs) (y ∷ ys) = if x == y then body_eq xs ys else false

-- `PendingDbTasks::same`
unfoldable pub same : Msg → Msg → Bool
unfolding body_eq
same a b =
    body_eq a.body b.body
    && (a.head.msg_type == b.head.msg_type
        && (a.head.db_shard == b.head.db_shard
            && (a.head.src_worker_id == b.head.src_worker_id
                && (a.head.ctx == b.head.ctx
                    && (a.head.player_id == b.head.player_id
                        && (a.head.epoch == b.head.epoch
                            && (a.head.session == b.head.session
                                && (a.head.module_id == b.head.module_id
                                    && (a.head.method_id == b.head.method_id
                                        && a.head.seq == b.head.seq)))))))))

-- `PendingDbTasks::control`
pub control : Msg → ℕ → Msg
control request kind = record request {
  head = record request.head {
    msg_type = if request.head.msg_type == task_redis then control_redis else control_mysql;
    db_control = kind;
  };
}
