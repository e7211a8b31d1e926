-- ===== src/Scene/Db/PendingTasks/Scan.antt =====
-- The two rounds over the tasks, by the index of active tasks or over the whole table
-- (sceneServer/src-cpp/db/taskDelivery.cc).
use mmorpg_game_server.Common.{
  ℕ, ◌+◌, not, Option, none, some, List, [], ◌∷◌, ltb, leb, if◌then◌else◌,
}
use mmorpg_game_server.Common.Map.{Map, find, insert}
use mmorpg_game_server.Scene.Db.Message.{Msg, is_accepted, control}
use mmorpg_game_server.Scene.Db.PendingTasks.{
  pending_dispatch, await_result, completed, Task, PendingDbTasks, Sender, needs_scheduling,
  dispatched,
}

-- What a round does with one task, on the messages that it has sent so far, the last one first.
abbrev pub Advance : Type 0
Advance = Task → List Msg → Task × List Msg

-- `advance` in `tick`
unfoldable pub advance_dispatch : ℕ → Sender → Advance
advance_dispatch now send task sent = elim task.state [
  | pending_dispatch ↦
      if leb task.next_try_at now
      then (dispatched (send sent task.request) now task, task.request ∷ sent)
      else (task, sent)
  | _ ↦ (task, sent)
]

-- `advance` in `tickControls`
unfoldable pub advance_controls : ℕ → Sender → Advance
advance_controls now send task sent =
    if ltb now task.next_try_at then (task, sent) else elim task.state [
      | completed ↦
          if task.ack_pending
          then (
            record task {
              ack_pending = not (is_accepted (send sent (control task.request 1)));
              next_try_at = now + 100;
            },
            control task.request 1 ∷ sent,
          )
          else (task, sent)
      | await_result ↦ (record task { next_try_at = now + 5000 }, control task.request 2 ∷ sent)
      | _ ↦ (task, sent)
    ]

-- The loop over the active tasks. `tasks_.at` throws where a number has no task.
unfoldable pub scan_active :
    Advance → Map (Unit {0}) → Map Task → List Msg → Option (Map (Unit {0}) × Map Task × List Msg)
scan_active advance [] tasks sent = some ([], tasks, sent)
scan_active advance ((id, u) ∷ active) tasks sent = elim (find id tasks) [
  | none ↦ none
  | some task ↦
      let next = advance task sent in
      elim (scan_active advance active (insert id next.0 tasks) next.1) [
        | none ↦ none
        | some (active', tasks', sent') ↦
            some (if needs_scheduling next.0 then (id, u) ∷ active' else active', tasks', sent')
      ]
]

-- The loop over the table.
unfoldable pub scan_all : Advance → Map Task → List Msg → Map Task × List Msg
scan_all advance [] sent = ([], sent)
scan_all advance ((id, task) ∷ m) sent =
    let next = advance task sent in
    let rest = scan_all advance m next.1 in ((id, next.0) ∷ rest.0, rest.1)

-- A round, and the messages that it sent, the last one first.
unfoldable pub scan : Advance → PendingDbTasks → Option (List Msg × PendingDbTasks)
unfolding scan_active scan_all
scan advance p =
    if p.indexed
    then elim (scan_active advance p.active p.tasks []) [
      | none ↦ none
      | some (active, tasks, sent) ↦ some (sent, record p { active = active; tasks = tasks })
    ]
    else some
        ((scan_all advance p.tasks []).1, record p { tasks = (scan_all advance p.tasks []).0 })

unfoldable pub tick : PendingDbTasks → ℕ → Sender → Option (List Msg × PendingDbTasks)
unfolding scan advance_dispatch
tick p now send = scan (advance_dispatch now send) p

unfoldable pub tick_controls : PendingDbTasks → ℕ → Sender → Option (List Msg × PendingDbTasks)
unfolding scan advance_controls
tick_controls p now send = scan (advance_controls now send) p
