-- ===== src/Scene/Db/PendingTasks/Alike.antt =====
-- One call has one outcome under both scheduling policies
-- (sceneServer/src-cpp/db/taskDelivery.cc).
use mmorpg_game_server.Common.{
  ℕ, ◌≡◌, refl, inl, inr, Bool, true, false, ◌&&◌, ◌||◌, not, none, some, List, [], ◌∷◌, arith, leb,
  ◌==◌, if◌then◌else◌, Bool-cases, Option-cases, length,
}
use mmorpg_game_server.Common.Map.{Map, find, insert, erase, has}
use mmorpg_game_server.Scene.Db.PendingTasks.{
  State, Task, PendingDbTasks, Sender, needs_scheduling, dispatched, registered, submit, numbered,
  make_room, register, find_droppable, observe_status, acknowledge_duplicate, complete, awaits,
  is_completed, status_byte, status_fits, result_fits, max_tasks,
}
use mmorpg_game_server.Scene.Db.Message.{Msg, is_invalid, same, task_mysql, task_redis, db_status}
use mmorpg_game_server.Scene.Db.PendingTasks.Index.{
  Indexed, put-Indexed, update-Indexed, drop-Indexed,
}

-- The same tasks under the two policies.
abbrev pub with_index : Map Task → Map (Unit {0}) → PendingDbTasks
with_index m active = record { tasks = m; active = active; indexed = true }

abbrev pub by_scan : Map Task → Map (Unit {0}) → PendingDbTasks
by_scan m active = record { tasks = m; active = active; indexed = false }

-- Two outcomes with one answer, the same tasks, and a right index in the first.
pub record Alike {A : Type 0} (x y : A × PendingDbTasks) : Type 0 where
  pub tasks_of : Map Task
  pub active_of : Map (Unit {0})
  pub other_of : Map (Unit {0})
  pub answer_eq : x.0 ≡ y.0
  pub first_eq : x.1 ≡ with_index tasks_of active_of
  pub second_eq : y.1 ≡ by_scan tasks_of other_of
  pub right : Indexed tasks_of active_of

pub alike :
    {A : Type 0} (b : A) (m : Map Task) (active other : Map (Unit {0}))
    → Indexed m active
    → Alike (b, with_index m active) (b, by_scan m other)
alike b m active other h = record {
  tasks_of = m;
  active_of = active;
  other_of = other;
  answer_eq = refl;
  first_eq = refl;
  second_eq = refl;
  right = h;
}

if-Alike :
    {A : Type 0} (c : Bool) (x y x' y' : A × PendingDbTasks)
    → Alike x y
    → (c ≡ false → Alike x' y')
    → Alike (if c then x else x') (if c then y else y')
if-Alike true x y x' y' h f = h
if-Alike false x y x' y' h f = f refl

awaits-needs : (task : Task) → awaits task ≡ true → needs_scheduling task ≡ true
unfolding awaits needs_scheduling
awaits-needs task h = ground arith

first_false : (a b : Bool) → (not a || b) ≡ false → a ≡ true
first_false true b h = refl
first_false false b h = absurd (cc (h))

pub observe_status-Alike :
    (m : Map Task) (active other : Map (Unit {0})) (status : Msg)
    → Indexed m active
    → Alike (observe_status (with_index m active) status) (observe_status (by_scan m other) status)
unfolding observe_status needs_scheduling
observe_status-Alike m active other status h =
    let unchanged = alike false m active other h in
    elim (Option-cases (find status.head.task_id m)) [
      | inl e ↦ rw (observe_status, e) unchanged
      | inr (task, e) ↦
          rw (observe_status, e)
            (if-Alike (not (awaits task) || not (status.head.msg_type == db_status)) _ _ _ _
              unchanged
              (λ c. elim (Option-cases (status_byte status.body)) [
                | inl b ↦ rw b unchanged
                | inr (b, q) ↦ rw q (elim (Bool-cases (status_fits task.request status)) [
                  | inl fits ↦
                      let task' : Task = record task { observed_status = b } in
                      rw fits (
                        alike true (insert status.head.task_id task' m) active other
                          (update-Indexed status.head.task_id task task' m active h e (λ n. n)))
                  | inr fits ↦ rw fits unchanged
                ])
              ]))
    ]

pub complete-Alike :
    (m : Map Task) (active other : Map (Unit {0})) (result : Msg) (now : ℕ)
    → Indexed m active
    → Alike (complete (with_index m active) result now) (complete (by_scan m other) result now)
unfolding complete
complete-Alike m active other result now h =
    let unchanged = alike false m active other h in
    elim (Option-cases (find result.head.task_id m)) [
      | inl e ↦ rw (complete, e) unchanged
      | inr (task, e) ↦
          rw (complete, e)
            (if-Alike (not (awaits task) || not (result_fits task.request result)) _ _ _ _ unchanged
              (λ c.
                let task' : Task = record task {
                  state = State.completed;
                  completed_at = now;
                  result = some result;
                  ack_pending = true;
                  next_try_at = 0;
                } in
                alike true (insert result.head.task_id task' m) active other (
                  update-Indexed result.head.task_id task task' m active h e (λ n.
                    awaits-needs task
                      (first_false (awaits task) (not (result_fits task.request result)) c)))))
    ]

pub acknowledge_duplicate-Alike :
    (m : Map Task) (active other : Map (Unit {0})) (result : Msg)
    → Indexed m active
    → Alike
        (acknowledge_duplicate (with_index m active) result)
        (acknowledge_duplicate (by_scan m other) result)
unfolding acknowledge_duplicate
acknowledge_duplicate-Alike m active other result h =
    let unchanged = alike false m active other h in
    elim (Option-cases (find result.head.task_id m)) [
      | inl e ↦ rw (acknowledge_duplicate, e) unchanged
      | inr (task, e) ↦
          rw (acknowledge_duplicate, e)
            (if-Alike
              (not (is_completed task)
                || not (elim task.result [ none ↦ false | some r ↦ same r result ]))
              _ _ _ _ unchanged
              (λ c.
                let task' : Task = record task { ack_pending = true; next_try_at = 0 } in
                alike true (insert result.head.task_id task' m)
                  (insert result.head.task_id tt active) other
                  (put-Indexed result.head.task_id task' m active h)))
    ]

register-Alike :
    (m : Map Task) (active other : Map (Unit {0})) (request : Msg) (now : ℕ) (send : Sender)
    → Indexed m active
    → Alike
        (register (with_index m active) request now send)
        (register (by_scan m other) request now send)
unfolding register
register-Alike m active other request now send h =
    let id : ℕ = request.head.task_id in
    let task : Task = dispatched (send [] request) now (registered request) in
    elim (Option-cases (find id m)) [
      | inr (old, e) ↦ rw (register, e) (alike (same old.request request, []) m active other h)
      | inl e ↦
          rw (register, e)
            (if-Alike (is_invalid (send [] request)) _ _ _ _
              (alike (false, request ∷ []) (erase id (insert id task m))
                (erase id (insert id tt active)) other
                (drop-Indexed id (insert id task m) (insert id tt active)
                  (put-Indexed id task m active h)))
              (λ good.
                alike (true, request ∷ []) (insert id task m) (insert id tt active) other
                  (put-Indexed id task m active h)))
    ]

pub submit-Alike :
    (m : Map Task) (active other : Map (Unit {0})) (request : Msg) (allocated now : ℕ)
    (send : Sender)
    → Indexed m active
    → Alike
        (submit (with_index m active) request allocated now send)
        (submit (by_scan m other) request allocated now send)
unfolding submit make_room
submit-Alike m active other request allocated now send h =
    let unchanged = alike (false, []) m active other h in
    let id : ℕ = (numbered request allocated).head.task_id in
    let rest : PendingDbTasks → (Bool × List Msg) × PendingDbTasks = λ p.
      elim (make_room p id now) [
        | none ↦ ((false, []), p)
        | some q ↦ register q (numbered request allocated) now send
      ] in
    if-Alike
      (not (request.head.msg_type == task_mysql) && not (request.head.msg_type == task_redis))
      ((false, []), with_index m active) ((false, []), by_scan m other) (rest (with_index m active))
      (rest (by_scan m other)) unchanged
      (λ c. elim (Bool-cases (leb max_tasks (length m) && not (has id m))) [
        | inr room ↦
            rw (make_room, room)
              (register-Alike m active other (numbered request allocated) now send h)
        | inl full ↦ elim (Option-cases (find_droppable now m)) [
          | inl e ↦ rw (make_room, full, e) unchanged
          | inr (old, e) ↦
              rw (make_room, full, e)
                (register-Alike (erase old m) (erase old active) other (numbered request allocated)
                  now send (drop-Indexed old m active h))
        ]
      ])
