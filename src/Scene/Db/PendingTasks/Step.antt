-- ===== src/Scene/Db/PendingTasks/Step.antt =====
-- Histories of the pending database tasks (sceneServer/src-cpp/db/taskDelivery.h).
use mmorpg_game_server.Common.{ℕ, ◌≡◌, Bool, true, Option, none, some, List, [], ◌∷◌}
use mmorpg_game_server.Common.Map.{Map, find, IsMap}
use mmorpg_game_server.Scene.Db.PendingTasks.{
  Task, PendingDbTasks, Sender, submit, observe_status, acknowledge_duplicate, complete,
}
use mmorpg_game_server.Scene.Db.PendingTasks.Scan.{tick, tick_controls}
use mmorpg_game_server.Scene.Db.Message.{Msg}

-- The operations, with their arguments; each has a sender of its own.
pub data Op : Type 0 where
  submit_op : Msg → ℕ → ℕ → Sender → Op
  observe_status_op : Msg → Op
  acknowledge_duplicate_op : Msg → Op
  complete_op : Msg → ℕ → Op
  tick_op : ℕ → Sender → Op
  tick_controls_op : ℕ → Sender → Op

-- The answer of a call, and the messages that it sent, the last one first.
abbrev pub Seen : Type 0
Seen = Bool × List Msg

-- A round has no answer.
unfoldable pub answered : Option (List Msg × PendingDbTasks) → Option (Seen × PendingDbTasks)
answered none = none
answered (some (sent, p)) = some ((true, sent), p)

-- A call that sends nothing.
abbrev pub quiet : Bool × PendingDbTasks → Seen × PendingDbTasks
quiet x = ((x.0, []), x.1)

-- What is seen of an operation, and the state after it; `none` is an exception.
unfoldable pub step : PendingDbTasks → Op → Option (Seen × PendingDbTasks)
unfolding answered
step p (submit_op request allocated now send) = some (submit p request allocated now send)
step p (observe_status_op status) = some (quiet (observe_status p status))
step p (acknowledge_duplicate_op result) = some (quiet (acknowledge_duplicate p result))
step p (complete_op result now) = some (quiet (complete p result now))
step p (tick_op now send) = answered (tick p now send)
step p (tick_controls_op now send) = answered (tick_controls p now send)

unfoldable pub run : PendingDbTasks → List Op → Option (List Seen × PendingDbTasks)
unfolding step
run p [] = some ([], p)
run p (op ∷ ops) = elim (step p op) [
  | none ↦ none
  | some (b, q) ↦ elim (run q ops) [ none ↦ none | some (bs, r) ↦ some (b ∷ bs, r) ]
]

-- The same entries, in whatever order.
abbrev pub SameMap : Map Task → Map Task → Type 0
SameMap m n = (j : ℕ) → find j m ≡ find j n

-- A history in which the table is gone through in some order of its entries in every call: the
-- order of an unordered map is not specified.
unfoldable pub Runs : PendingDbTasks → List Op → List Seen → PendingDbTasks → Type 0
Runs p [] seen q = (seen ≡ []) × (q ≡ p)
Runs p (op ∷ ops) seen q =
    (order : Map Task) × (out : Seen) × (outs : List Seen) × (r : PendingDbTasks) × IsMap order
    × SameMap order p.tasks
    × (step (record p { tasks = order }) op ≡ some (out, r))
    × (seen ≡ out ∷ outs)
    × Runs r ops outs q
