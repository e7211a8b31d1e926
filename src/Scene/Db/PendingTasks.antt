-- ===== src/Scene/Db/PendingTasks.antt =====
-- The database tasks a logic thread waits for (sceneServer/src-cpp/db/taskDelivery.h and
-- taskDelivery.cc). Times are milliseconds from the epoch and are not negative.
pub mod Scan
pub mod Step
pub mod Index
pub mod Round
pub mod Policy
pub mod Alike
pub mod Capacity
mod Tests
use mmorpg_game_server.Common.{
  ℕ, zero, suc, ◌+◌, ◌-◌, ◌*◌, ◌/◌, ◌%◌, ◌^◌, ◌≤◌, ◌<◌, min, ◌≡◌, refl, sym, ap, ◌∙◌, ◌≢◌, ◌⊎◌, inl,
  inr, ◌↔◌, Bool, true, false, ◌&&◌, ◌||◌, not, Option, none, some, List, [], ◌∷◌, ◌++◌, map,
  append-nil, append_assoc, arith, ltb, leb, ◌==◌, if◌then◌else◌, Bool-cases, Option-cases, ==-refl,
  ltb→lt, lt→ltb, le→not_ltb, not_ltb→le, ==→eq, length, get_or, take, drop, replicate, retain,
  length-append, length-take, length-drop, length-replicate, take_all, drop_all, take-length-append,
  drop-length-append, drop-drop, drop-take, take-take, take-append-drop, take-append_le,
  drop-append_le, length-retain-le, All, All-append,
}
use mmorpg_game_server.Common.Map.{
  Map, find, insert, erase, has, IsMap, find-insert, find-insert_self, find-erase, find-erase_self,
  has-none, length-insert, length-erase, erase-IsMap, insert-IsMap, length-erase-le,
}
use mmorpg_game_server.Scene.Db.Message.{
  Msg, DispatchResult, is_accepted, is_invalid, same, control, task_mysql, task_redis, result_mysql,
  result_redis, db_status,
}

pub data State : Type 0 where
  pending_dispatch await_result completed dispatch_failed : State

pub record Task : Type 0 where
  pub request : Msg
  pub state : State
  pub next_try_at : ℕ
  pub result : Option Msg
  pub ack_pending : Bool
  pub observed_status : ℕ
  pub completed_at : ℕ

pub record PendingDbTasks : Type 0 where
  pub tasks : Map Task
  pub active : Map (Unit {0})
  pub indexed : Bool

abbrev pub max_tasks : ℕ
max_tasks = 65536

-- `LegacyScan` is `false` and `ActiveIndex` is `true`.
abbrev pub create : Bool → PendingDbTasks
create indexed = record { tasks = []; active = []; indexed = indexed }

is_nil : Map Task → Bool
is_nil [] = true
is_nil (entry ∷ m) = false

pub enable_active_index : PendingDbTasks → Bool × PendingDbTasks
unfolding is_nil
enable_active_index p = if is_nil p.tasks then (true, record p { indexed = true }) else (false, p)

pub needs_scheduling : Task → Bool
needs_scheduling task = elim task.state [
  | pending_dispatch ↦ true
  | await_result ↦ true
  | completed ↦ task.ack_pending
  | dispatch_failed ↦ false
]

abbrev pub activate : ℕ → PendingDbTasks → PendingDbTasks
activate id p = if p.indexed then record p { active = insert id tt p.active } else p

abbrev pub deactivate : ℕ → PendingDbTasks → PendingDbTasks
deactivate id p = if p.indexed then record p { active = erase id p.active } else p

-- A sender answers by the messages that the same call has sent before, the last one first: the
-- queues behind it fill up, and every call has a sender of its own.
abbrev pub Sender : Type 0
Sender = List Msg → Msg → DispatchResult

-- `dispatch` after the answer of the sender.
pub dispatched : DispatchResult → ℕ → Task → Task
dispatched answer now task = record task {
  state =
      if is_accepted answer
      then State.await_result
      else if is_invalid answer
      then State.dispatch_failed
      else task.state;
  next_try_at = now + (if is_accepted answer then 5000 else 100);
}

pub registered : Msg → Task
registered request = record {
  request = request;
  state = State.pending_dispatch;
  next_try_at = 0;
  result = none;
  ack_pending = false;
  observed_status = 0;
  completed_at = 0;
}

-- The test of the entries that a full table may drop: completed, acknowledged, and a minute old.
pub can_drop : ℕ → Task → Bool
can_drop now task = elim task.state [
  | completed ↦ not task.ack_pending && not (ltb (now - task.completed_at) 60000)
  | _ ↦ false
]

-- The first of them.
pub find_droppable : ℕ → Map Task → Option ℕ
unfolding can_drop
find_droppable now [] = none
find_droppable now ((id, task) ∷ m) = if can_drop now task then some id else find_droppable now m

-- The request under its number, which is the one `allocateId` gives where it has none.
pub numbered : Msg → ℕ → Msg
numbered request allocated =
    if request.head.task_id == 0
    then record request { head = record request.head { task_id = allocated } }
    else request

-- The table with room for the request, where there is or can be made some.
pub make_room : PendingDbTasks → ℕ → ℕ → Option PendingDbTasks
unfolding find_droppable
make_room p id now =
    if leb max_tasks (length p.tasks) && not (has id p.tasks)
    then elim (find_droppable now p.tasks) [
      | none ↦ none
      | some old ↦ some (record (deactivate old p) { tasks = erase old p.tasks })
    ]
    else some p

-- The rest of `submit`, from the `emplace` on, with what it sends.
pub register : PendingDbTasks → Msg → ℕ → Sender → (Bool × List Msg) × PendingDbTasks
unfolding dispatched registered
register p request now send = elim (find request.head.task_id p.tasks) [
  | some old ↦ ((same old.request request, []), p)
  | none ↦
      let answer = send [] request in
      let q = activate request.head.task_id (record p {
        tasks = insert request.head.task_id (dispatched answer now (registered request)) p.tasks;
      }) in
      if is_invalid answer
      then (
        (false, request ∷ []),
        record (deactivate request.head.task_id q) { tasks = erase request.head.task_id q.tasks },
      )
      else ((true, request ∷ []), q)
]

pub submit : PendingDbTasks → Msg → ℕ → ℕ → Sender → (Bool × List Msg) × PendingDbTasks
unfolding numbered make_room register
submit p request allocated now send =
    if not (request.head.msg_type == task_mysql) && not (request.head.msg_type == task_redis)
    then ((false, []), p)
    else elim (make_room p (numbered request allocated).head.task_id now) [
      | none ↦ ((false, []), p)
      | some q ↦ register q (numbered request allocated) now send
    ]

-- The status fits the task that waits.
pub status_fits : Msg → Msg → Bool
status_fits request status =
    request.head.src_worker_id == status.head.src_worker_id
    && (request.head.db_shard == status.head.db_shard
        && (request.head.player_id == status.head.player_id
            && (request.head.epoch == status.head.epoch && request.head.ctx == status.head.ctx)))

pub awaits : Task → Bool
awaits task = elim task.state [ await_result ↦ true | _ ↦ false ]

pub is_completed : Task → Bool
is_completed task = elim task.state [ completed ↦ true | _ ↦ false ]

-- A body of one byte, 2 at most.
pub status_byte : List ℕ → Option ℕ
status_byte [] = none
status_byte (b ∷ []) = if ltb 2 b then none else some b
status_byte (b ∷ c ∷ bs) = none

pub observe_status : PendingDbTasks → Msg → Bool × PendingDbTasks
unfolding status_fits awaits status_byte
observe_status p status = elim (find status.head.task_id p.tasks) [
  | none ↦ (false, p)
  | some task ↦
      if not (awaits task) || not (status.head.msg_type == db_status)
      then (false, p)
      else elim (status_byte status.body) [
        | none ↦ (false, p)
        | some b ↦
            if status_fits task.request status
            then (
              true,
              record p {
                tasks = insert status.head.task_id (record task { observed_status = b }) p.tasks;
              },
            )
            else (false, p)
      ]
]

pub acknowledge_duplicate : PendingDbTasks → Msg → Bool × PendingDbTasks
unfolding is_completed
acknowledge_duplicate p result = elim (find result.head.task_id p.tasks) [
  | none ↦ (false, p)
  | some task ↦
      if not (is_completed task) || not (elim task.result [ none ↦ false | some r ↦ same r result ])
      then (false, p)
      else (
        true,
        activate result.head.task_id (record p {
          tasks =
              insert result.head.task_id (record task { ack_pending = true; next_try_at = 0 })
                p.tasks;
        }),
      )
]

-- The result belongs to the request.
pub result_fits : Msg → Msg → Bool
result_fits request result =
    request.head.player_id == result.head.player_id
    && (request.head.epoch == result.head.epoch
        && (request.head.db_shard == result.head.db_shard
            && (request.head.module_id == result.head.module_id
                && (request.head.method_id == result.head.method_id
                    && (request.head.ctx == result.head.ctx
                        && (request.head.src_worker_id == result.head.src_worker_id
                            && result.head.msg_type == (
                                if request.head.msg_type == task_mysql
                                then result_mysql
                                else result_redis)))))))

pub complete : PendingDbTasks → Msg → ℕ → Bool × PendingDbTasks
unfolding awaits result_fits
complete p result now = elim (find result.head.task_id p.tasks) [
  | none ↦ (false, p)
  | some task ↦ if not (awaits task) || not (result_fits task.request result) then (false, p) else (
    true,
    record p {
      tasks =
          insert result.head.task_id
            (record task {
              state = State.completed;
              completed_at = now;
              result = some result;
              ack_pending = true;
              next_try_at = 0;
            })
            p.tasks;
    },
  )
]

pub unsettled : Map Task → Bool
unfolding is_completed
unsettled [] = false
unsettled ((id, task) ∷ m) =
    if not (is_completed task) || task.ack_pending then true else unsettled m
