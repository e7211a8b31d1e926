-- ===== src/Scene/Db/PendingTasks/Capacity.antt =====
-- How many tasks are kept
-- (sceneServer/src-cpp/db/taskDelivery.cc).
use mmorpg_game_server.Common.{
  ℕ, suc, ◌≤◌, ◌<◌, ◌≡◌, refl, sym, ap, inl, inr, Bool, true, false, ◌&&◌, ◌||◌, not, none, some,
  List, [], ◌∷◌, arith, leb, ◌==◌, if◌then◌else◌, Bool-cases, Option-cases, ==-refl, some-inj,
  length,
}
use mmorpg_game_server.Common.Map.{
  Map, find, insert, erase, has, IsMap, length-insert, length-erase, erase-IsMap, insert-IsMap,
  length-erase-le,
}
use mmorpg_game_server.Scene.Db.PendingTasks.{
  Task, PendingDbTasks, Sender, create, activate, deactivate, dispatched, registered, submit,
  numbered, make_room, register, find_droppable, can_drop, observe_status, acknowledge_duplicate,
  complete, awaits, is_completed, status_byte, status_fits, result_fits, max_tasks,
}
use mmorpg_game_server.Scene.Db.PendingTasks.Scan.{
  Advance, advance_dispatch, advance_controls, scan_active, scan_all, scan, tick, tick_controls,
}
use mmorpg_game_server.Scene.Db.Message.{Msg, is_invalid, same, task_mysql, task_redis, db_status}
use mmorpg_game_server.Scene.Db.PendingTasks.Step.{
  Op, submit_op, observe_status_op, acknowledge_duplicate_op, complete_op, tick_op,
  tick_controls_op, Seen, answered, step, run,
}

-- Each number once, and no more tasks than the limit.
abbrev IsWithin : Map Task → Type 0
IsWithin m = IsMap m × (length m ≤ max_tasks)

update-IsWithin :
    (id : ℕ) (old task : Task) (m : Map Task)
    → IsWithin m
    → find id m ≡ some old
    → IsWithin (insert id task m)
update-IsWithin id old task m (h, l) e =
    let present : has id m ≡ true = rw (has, e) refl in
    (insert-IsMap id task m h, rw (length-insert id task m, present) l)

if-IsWithin :
    {A : Type 0} (c : Bool) (x y : A × PendingDbTasks)
    → IsWithin x.1.tasks
    → (c ≡ false → IsWithin y.1.tasks)
    → IsWithin (if c then x else y).1.tasks
if-IsWithin true x y h f = h
if-IsWithin false x y h f = f refl

activate-IsWithin :
    (id : ℕ) (p : PendingDbTasks) → IsWithin p.tasks → IsWithin (activate id p).tasks
activate-IsWithin id p h = elim (Bool-cases p.indexed) [ inl e ↦ rw e h | inr e ↦ rw e h ]

observe_status-IsWithin :
    (p : PendingDbTasks) (status : Msg)
    → IsWithin p.tasks
    → IsWithin (observe_status p status).1.tasks
unfolding observe_status
observe_status-IsWithin p status h = elim (Option-cases (find status.head.task_id p.tasks)) [
  | inl e ↦ rw (observe_status, e) h
  | inr (task, e) ↦
      rw (observe_status, e)
        (if-IsWithin (not (awaits task) || not (status.head.msg_type == db_status)) _ _ h (λ c.
          elim (Option-cases (status_byte status.body)) [
            | inl b ↦ rw b h
            | inr (b, q) ↦ rw q (elim (Bool-cases (status_fits task.request status)) [
              | inl fits ↦ rw fits (
                  update-IsWithin status.head.task_id task (record task { observed_status = b })
                    p.tasks h e)
              | inr fits ↦ rw fits h
            ])
          ]))
]

acknowledge_duplicate-IsWithin :
    (p : PendingDbTasks) (result : Msg)
    → IsWithin p.tasks
    → IsWithin (acknowledge_duplicate p result).1.tasks
unfolding acknowledge_duplicate
acknowledge_duplicate-IsWithin p result h = elim (Option-cases (find result.head.task_id p.tasks)) [
  | inl e ↦ rw (acknowledge_duplicate, e) h
  | inr (task, e) ↦
      let task' : Task = record task { ack_pending = true; next_try_at = 0 } in
      let q : PendingDbTasks = record p { tasks = insert result.head.task_id task' p.tasks } in
      rw (acknowledge_duplicate, e)
        (if-IsWithin
          (not (is_completed task)
            || not (elim task.result [ none ↦ false | some r ↦ same r result ]))
          _ _ h
          (λ c.
            activate-IsWithin result.head.task_id q
              (update-IsWithin result.head.task_id task task' p.tasks h e)))
]

complete-IsWithin :
    (p : PendingDbTasks) (result : Msg) (now : ℕ)
    → IsWithin p.tasks
    → IsWithin (complete p result now).1.tasks
unfolding complete
complete-IsWithin p result now h = elim (Option-cases (find result.head.task_id p.tasks)) [
  | inl e ↦ rw (complete, e) h
  | inr (task, e) ↦
      rw (complete, e)
        (if-IsWithin (not (awaits task) || not (result_fits task.request result)) _ _ h
          (λ c. update-IsWithin result.head.task_id task _ p.tasks h e))
]

erase-IsWithin : (id : ℕ) (m : Map Task) → IsWithin m → IsWithin (erase id m)
erase-IsWithin id m (h, l) = (erase-IsMap id m h, omega (arith, length-erase-le id m))

-- Room for one more, unless the number is there.
register-IsWithin :
    (p : PendingDbTasks) (request : Msg) (now : ℕ) (send : Sender)
    → IsWithin p.tasks
    → (has request.head.task_id p.tasks ≡ false → length p.tasks < max_tasks)
    → IsWithin (register p request now send).1.tasks
unfolding register
register-IsWithin p request now send h room =
    let id : ℕ = request.head.task_id in
    let task : Task = dispatched (send [] request) now (registered request) in
    let q : PendingDbTasks = record p { tasks = insert id task p.tasks } in
    elim (Option-cases (find id p.tasks)) [
      | inr (old, e) ↦ rw (register, e) h
      | inl e ↦
          let absent : has id p.tasks ≡ false = rw (has, e) refl in
          let put : IsWithin (insert id task p.tasks) = (
            insert-IsMap id task p.tasks h.0,
            rw (length-insert id task p.tasks, absent) (let l = room absent in omega arith),
          ) in
          let done : IsWithin (activate id q).tasks = activate-IsWithin id q put in
          rw (register, e)
            (if-IsWithin (is_invalid (send [] request)) _ _
              (erase-IsWithin id (activate id q).tasks done) (λ good. done))
    ]

find_droppable-find :
    (now : ℕ) (m : Map Task) (id : ℕ) → find_droppable now m ≡ some id → has id m ≡ true
unfolding find_droppable
find_droppable-find now [] id h = absurd (cc (h))
find_droppable-find now ((j, task) ∷ m) id h = elim (Bool-cases (can_drop now task)) [
  | inl c ↦ rw (has, some-inj (rw (find_droppable, c) at h), ==-refl id) refl
  | inr c ↦ elim (Bool-cases (j == id)) [
    | inl q ↦ rw (has, q) refl
    | inr q ↦ rw (has, q) (find_droppable-find now m id (rw (find_droppable, c) at h))
  ]
]

shorter : (m : Map Task) (id : ℕ) → IsWithin m → has id m ≡ true → length (erase id m) < max_tasks
shorter m id (h, l) k = elim (Option-cases (find id m)) [
  | inl e ↦ absurd (cc (rw (has, e) at k))
  | inr (task, e) ↦ omega (arith, length-erase id task m h e)
]

submit-IsWithin :
    (p : PendingDbTasks) (request : Msg) (allocated now : ℕ) (send : Sender)
    → IsWithin p.tasks
    → IsWithin (submit p request allocated now send).1.tasks
unfolding submit make_room
submit-IsWithin p request allocated now send h =
    let id : ℕ = (numbered request allocated).head.task_id in
    let rest : (Bool × List Msg) × PendingDbTasks = elim (make_room p id now) [
      | none ↦ ((false, []), p)
      | some q ↦ register q (numbered request allocated) now send
    ] in
    if-IsWithin
      (not (request.head.msg_type == task_mysql) && not (request.head.msg_type == task_redis))
      ((false, []), p) rest h
      (λ c. elim (Bool-cases (leb max_tasks (length p.tasks) && not (has id p.tasks))) [
        | inr room ↦
            rw (make_room, room)
              (register-IsWithin p (numbered request allocated) now send h
                (λ absent. ground (arith, absent, room)))
        | inl full ↦ elim (Option-cases (find_droppable now p.tasks)) [
          | inl e ↦ rw (make_room, full, e) h
          | inr (old, e) ↦
              rw (make_room, full, e)
                (register-IsWithin (record (deactivate old p) { tasks = erase old p.tasks })
                  (numbered request allocated) now send (erase-IsWithin old p.tasks h)
                  (λ absent. shorter p.tasks old h (find_droppable-find now p.tasks old e)))
        ]
      ])

find-scan_all :
    (f : Advance) (j : ℕ) (m : Map Task) (sent : List Msg)
    → find j m ≡ none
    → find j (scan_all f m sent).0 ≡ none
unfolding scan_all
find-scan_all f j [] sent h = refl
find-scan_all f j ((i, w) ∷ m) sent h = elim (Bool-cases (i == j)) [
  | inl q ↦ absurd (cc (rw q at h))
  | inr q ↦ rw q (find-scan_all f j m (f w sent).1 (rw q at h))
]

scan_all-IsMap :
    (f : Advance) (m : Map Task) (sent : List Msg) → IsMap m → IsMap (scan_all f m sent).0
unfolding scan_all
scan_all-IsMap f [] sent h = tt
scan_all-IsMap f ((i, w) ∷ m) sent (g, h) =
    (find-scan_all f i m (f w sent).1 g, scan_all-IsMap f m (f w sent).1 h)

length-scan_all :
    (f : Advance) (m : Map Task) (sent : List Msg) → length (scan_all f m sent).0 ≡ length m
unfolding scan_all
length-scan_all f [] sent = refl
length-scan_all f ((j, w) ∷ m) sent = ap suc (length-scan_all f m (f w sent).1)

scan_active-IsWithin :
    (f : Advance) (active : Map (Unit {0})) (m : Map Task) (sent : List Msg)
    (r : Map (Unit {0}) × Map Task × List Msg)
    → IsWithin m
    → scan_active f active m sent ≡ some r
    → IsWithin r.1
unfolding scan_active
scan_active-IsWithin f [] m sent r h e = rw (ap (λ x. x.1) (sym (some-inj e))) h
scan_active-IsWithin f ((id, u) ∷ active) m sent r h e = elim (Option-cases (find id m)) [
  | inl g ↦ absurd (cc (rw (scan_active, g) at e))
  | inr (task, g) ↦
      elim (Option-cases (scan_active f active (insert id (f task sent).0 m) (f task sent).1)) [
        | inl q ↦ absurd (cc (rw (scan_active, g, q) at e))
        | inr (next, q) ↦ rw (ap (λ x. x.1) (sym (some-inj (rw (scan_active, g, q) at e)))) (
            scan_active-IsWithin f active (insert id (f task sent).0 m) (f task sent).1 next
              (update-IsWithin id task (f task sent).0 m h g) q)
      ]
]

scan-IsWithin :
    (f : Advance) (p : PendingDbTasks) (w : Seen × PendingDbTasks)
    → IsWithin p.tasks
    → answered (scan f p) ≡ some w
    → IsWithin w.1.tasks
unfolding answered scan
scan-IsWithin f p w h e = elim (Bool-cases p.indexed) [
  | inr i ↦
      let done : IsWithin (scan_all f p.tasks []).0 =
        (scan_all-IsMap f p.tasks [] h.0, rw (length-scan_all f p.tasks []) h.1) in
      rw (ap (λ r. r.1.tasks) (sym (some-inj (rw (scan, i) at e)))) done
  | inl i ↦ elim (Option-cases (scan_active f p.active p.tasks [])) [
    | inl g ↦ absurd (cc (rw (scan, i, g) at e))
    | inr (r, g) ↦
        rw (ap (λ x. x.1.tasks) (sym (some-inj (rw (scan, i, g) at e))))
          (scan_active-IsWithin f p.active p.tasks [] r h g)
  ]
]

step-IsWithin :
    (op : Op) (p : PendingDbTasks) (w : Seen × PendingDbTasks)
    → IsWithin p.tasks
    → step p op ≡ some w
    → IsWithin w.1.tasks
unfolding step tick tick_controls
step-IsWithin (submit_op request allocated now send) p w h e =
    rw (ap (λ r. r.1.tasks) (some-inj e)) at (submit-IsWithin p request allocated now send h)
step-IsWithin (observe_status_op status) p w h e =
    rw (ap (λ r. r.1.tasks) (some-inj e)) at (observe_status-IsWithin p status h)
step-IsWithin (acknowledge_duplicate_op result) p w h e =
    rw (ap (λ r. r.1.tasks) (some-inj e)) at (acknowledge_duplicate-IsWithin p result h)
step-IsWithin (complete_op result now) p w h e =
    rw (ap (λ r. r.1.tasks) (some-inj e)) at (complete-IsWithin p result now h)
step-IsWithin (tick_op now send) p w h e = scan-IsWithin (advance_dispatch now send) p w h e
step-IsWithin (tick_controls_op now send) p w h e =
    scan-IsWithin (advance_controls now send) p w h e

run-IsWithin :
    (ops : List Op) (p : PendingDbTasks) (seen : List Seen) (q : PendingDbTasks)
    → IsWithin p.tasks
    → run p ops ≡ some (seen, q)
    → IsWithin q.tasks
unfolding run
run-IsWithin [] p seen q h e = rw (ap (λ r. r.1.tasks) (sym (some-inj e))) h
run-IsWithin (op ∷ ops) p seen q h e = elim (Option-cases (step p op)) [
  | inl g ↦ absurd (cc (rw (run, g) at e))
  | inr (w, g) ↦ elim (Option-cases (run w.1 ops)) [
    | inl k ↦ absurd (cc (rw (run, g, k) at e))
    | inr (r, k) ↦
        rw (ap (λ x. x.1.tasks) (sym (some-inj (rw (run, g, k) at e))))
          (run-IsWithin ops w.1 r.0 r.1 (step-IsWithin op p w h g) k)
  ]
]

-- After every history of calls, under either policy, no more tasks are kept than the limit.
pub run-capacity :
    (indexed : Bool) (ops : List Op) (seen : List Seen) (p : PendingDbTasks)
    → run (create indexed) ops ≡ some (seen, p)
    → length p.tasks ≤ max_tasks
run-capacity indexed ops seen p e = (run-IsWithin ops (create indexed) seen p (tt, omega arith) e).1
