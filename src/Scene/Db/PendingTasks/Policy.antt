-- ===== src/Scene/Db/PendingTasks/Policy.antt =====
-- Scheduling by the index of active tasks does what scheduling by the whole table does
-- (sceneServer/src-cpp/db/taskDelivery.cc).
use mmorpg_game_server.Common.{
  ℕ, ◌≡◌, refl, sym, ap, ◌∙◌, Bool, true, false, some, List, [], ◌∷◌, arith,
}
use mmorpg_game_server.Common.Map.{Map, IsMap}
use mmorpg_game_server.Scene.Db.PendingTasks.{
  Task, PendingDbTasks, Sender, create, needs_scheduling,
}
use mmorpg_game_server.Scene.Db.PendingTasks.Scan.{
  Advance, advance_dispatch, advance_controls, scan_all, scan, tick, tick_controls,
}
use mmorpg_game_server.Scene.Db.Message.{Msg}
use mmorpg_game_server.Scene.Db.PendingTasks.Step.{
  Op, submit_op, observe_status_op, acknowledge_duplicate_op, complete_op, tick_op,
  tick_controls_op, Seen, answered, quiet, step, run, SameMap, Runs,
}
use mmorpg_game_server.Scene.Db.PendingTasks.Index.{Indexed}
use mmorpg_game_server.Scene.Db.PendingTasks.Round.{order, order-SameMap, order-IsMap, scan_index}
use mmorpg_game_server.Scene.Db.PendingTasks.Alike.{
  with_index, by_scan, Alike, submit-Alike, observe_status-Alike, complete-Alike,
  acknowledge_duplicate-Alike,
}

-- A task that wants no scheduling is not touched by a round, and nothing is sent for it.
advance_dispatch-idle :
    (now : ℕ) (send : Sender) (task : Task) (sent : List Msg)
    → needs_scheduling task ≡ false
    → advance_dispatch now send task sent ≡ (task, sent)
unfolding advance_dispatch needs_scheduling
advance_dispatch-idle now send task sent h = ground arith

advance_controls-idle :
    (now : ℕ) (send : Sender) (task : Task) (sent : List Msg)
    → needs_scheduling task ≡ false
    → advance_controls now send task sent ≡ (task, sent)
unfolding advance_controls needs_scheduling
advance_controls-idle now send task sent h = ground arith

-- What one operation does by the index, it does by the whole table in some order: the same is
-- seen, and the same tasks are there afterwards.
record Matched (op : Op) (m : Map Task) (active other : Map (Unit {0})) : Type 0 where
  order_of : Map Task
  order_map : IsMap order_of
  order_same : SameMap order_of m
  seen_of : Seen
  tasks_of : Map Task
  active_of : Map (Unit {0})
  scanned_of : Map Task
  other_of : Map (Unit {0})
  first_eq : step (with_index m active) op ≡ some (seen_of, with_index tasks_of active_of)
  second_eq : step (by_scan order_of other) op ≡ some (seen_of, by_scan scanned_of other_of)
  same : SameMap tasks_of scanned_of
  right : Indexed tasks_of active_of

-- An operation that is no round goes through the table in the order that it has.
module _ (op : Op) (m : Map Task) (active other : Map (Unit {0})) (h : Indexed m active) where
  outcome-Matched :
      (x y : Seen × PendingDbTasks)
      → step (with_index m active) op ≡ some x
      → step (by_scan m other) op ≡ some y
      → Alike x y
      → Matched op m active other
  outcome-Matched x y e f a = record {
    order_of = m;
    order_map = h.tasks_map;
    order_same = λ j. refl;
    seen_of = x.0;
    tasks_of = a.tasks_of;
    active_of = a.active_of;
    scanned_of = a.tasks_of;
    other_of = a.other_of;
    first_eq = e ∙ ap (λ p. some (x.0, p)) a.first_eq;
    second_eq =
        f
        ∙ ap (λ p. some (y.0, p)) a.second_eq
        ∙ ap (λ s. some (s, by_scan a.tasks_of a.other_of)) (sym a.answer_eq);
    same = λ j. refl;
    right = a.right;
  }

  quiet-Matched :
      (x y : Bool × PendingDbTasks)
      → step (with_index m active) op ≡ some (quiet x)
      → step (by_scan m other) op ≡ some (quiet y)
      → Alike x y
      → Matched op m active other
  quiet-Matched x y e f a = outcome-Matched (quiet x) (quiet y) e f (record {
    tasks_of = a.tasks_of;
    active_of = a.active_of;
    other_of = a.other_of;
    answer_eq = ap (λ b. (b, [])) a.answer_eq;
    first_eq = a.first_eq;
    second_eq = a.second_eq;
    right = a.right;
  })

  round-Matched :
      (f : Advance)
      → ((task : Task) (sent : List Msg)
          → needs_scheduling task ≡ false
          → f task sent ≡ (task, sent))
      → step (with_index m active) op ≡ answered (scan f (with_index m active))
      → step (by_scan (order active m) other) op
        ≡ answered (scan f (by_scan (order active m) other))
      → Matched op m active other
  unfolding scan answered
  round-Matched f fix e g =
      let r = scan_index f m active fix h in
      record {
        order_of = order active m;
        order_map = order-IsMap active m h.tasks_map;
        order_same = order-SameMap active m;
        seen_of = (true, (scan_all f (order active m) []).1);
        tasks_of = r.1;
        active_of = r.0;
        scanned_of = (scan_all f (order active m) []).0;
        other_of = other;
        first_eq = e ∙ rw (scan, r.2) refl;
        second_eq = g;
        same = r.3;
        right = r.4;
      }

step-Matched :
    (op : Op) (m : Map Task) (active other : Map (Unit {0}))
    → Indexed m active
    → Matched op m active other
unfolding step tick tick_controls
step-Matched (submit_op request allocated now send) m active other h =
    outcome-Matched (submit_op request allocated now send) m active other h _ _ refl refl
      (submit-Alike m active other request allocated now send h)
step-Matched (observe_status_op status) m active other h =
    quiet-Matched (observe_status_op status) m active other h _ _ refl refl
      (observe_status-Alike m active other status h)
step-Matched (acknowledge_duplicate_op result) m active other h =
    quiet-Matched (acknowledge_duplicate_op result) m active other h _ _ refl refl
      (acknowledge_duplicate-Alike m active other result h)
step-Matched (complete_op result now) m active other h =
    quiet-Matched (complete_op result now) m active other h _ _ refl refl
      (complete-Alike m active other result now h)
step-Matched (tick_op now send) m active other h =
    round-Matched (tick_op now send) m active other h (advance_dispatch now send)
      (advance_dispatch-idle now send) refl refl
step-Matched (tick_controls_op now send) m active other h =
    round-Matched (tick_controls_op now send) m active other h (advance_controls now send)
      (advance_controls-idle now send) refl refl

run-Matched :
    (ops : List Op) (m : Map Task) (active : Map (Unit {0})) (n : Map Task) (other : Map (Unit {0}))
    → Indexed m active
    → SameMap m n
    → (seen : List Seen) × (p : PendingDbTasks) × (q : PendingDbTasks) × (run
          (with_index m active)
          ops
        ≡ some (seen, p))
      × Runs (by_scan n other) ops seen q
      × SameMap p.tasks q.tasks
unfolding run Runs
run-Matched [] m active n other h same =
    ([], with_index m active, by_scan n other, refl, (refl, refl), same)
run-Matched (op ∷ ops) m active n other h same =
    let s = step-Matched op m active other h in
    let rest = run-Matched ops s.tasks_of s.active_of s.scanned_of s.other_of s.right s.same in
    (
      s.seen_of ∷ rest.0,
      rest.1,
      rest.2,
      rw (run, s.first_eq, rest.3) refl,
      (
        s.order_of,
        s.seen_of,
        rest.0,
        by_scan s.scanned_of s.other_of,
        s.order_map,
        (λ j. s.order_same j ∙ same j),
        s.second_eq,
        refl,
        rest.4,
      ),
      rest.5,
    )

-- Every history of calls under the index of active tasks ends without an exception, and is a
-- history of the calls under the scan of the whole table, gone through in some order of its
-- entries in every call: the answers are the same, the same messages are sent in the same order,
-- and the same tasks are there in the end. Each call's sender answers by what the call has sent
-- before, so that queues may fill up on the way.
pub run_index-Runs :
    (ops : List Op)
    → (seen : List Seen) × (p : PendingDbTasks) × (q : PendingDbTasks) × (run (create true) ops
        ≡ some (seen, p))
      × Runs (create false) ops seen q
      × SameMap p.tasks q.tasks
run_index-Runs ops =
    run-Matched ops [] [] [] []
      (record {
        tasks_map = tt;
        active_map = tt;
        covers = λ j task e n. absurd (cc (e));
        known = λ j k. k;
      })
      (λ j. refl)
