-- ===== src/Scene/WorkerPending/Lifecycle.antt =====
-- Lifecycle tasks wait until their worker takes them.
use mmorpg_game_server.Common.{
  ℕ, zero, suc, ◌+◌, ◌-◌, ◌%◌, ◌^◌, ◌≡◌, refl, ◌∙◌, ◌≢◌, ◌⊎◌, inl, inr, Bool, true, false, ◌&&◌,
  ◌||◌, none, some, List, [], ◌∷◌, ◌++◌, arith, ltb, leb, ◌==◌, if◌then◌else◌, Bool-cases,
  Option-cases, length,
}
use mmorpg_game_server.Scene.WorkerPending.{
  Msg, Limits, DispatchResult, is_accepted, backpressure, refused, Stats, Task, Queue,
  WorkerPendingTasks, Admission, accepted, pending, busy, internal_error, account_remove,
  count_dropped, is_nil, direct, deadline_of, push_task, enqueue, submit_to, submit, queue_at,
  set_queue, expire, expire_all, cancel_tasks, cancel_queues, cancel_session, drain, drain_workers,
  pump,
}
use mmorpg_game_server.Scene.WorkerPending.Accounts.{DispatchResult-cases}

-- The lifecycle tasks among these, in their order.
abbrev pub lifecycle_tasks_of : List Task → List Task
lifecycle_tasks_of [] = []
lifecycle_tasks_of (t ∷ ts) =
    if t.lifecycle then t ∷ lifecycle_tasks_of ts else lifecycle_tasks_of ts

-- The lifecycle tasks of each worker.
abbrev pub per_worker : List Queue → List (List Task)
per_worker [] = []
per_worker (q ∷ qs) = lifecycle_tasks_of q.tasks ∷ per_worker qs

expire-lifecycle :
    (now : ℕ) (valid : Msg → Bool) (ts : List Task) (s : Stats)
    → lifecycle_tasks_of (expire now valid ts s).1.0 ≡ lifecycle_tasks_of ts
unfolding expire
expire-lifecycle now valid [] s = refl
expire-lifecycle now valid (t ∷ ts) s = ground (
  arith,
  expire-lifecycle now valid ts s,
  expire-lifecycle now valid ts (account_remove (count_dropped (leb t.deadline now) s) t),
)

expire_all-lifecycle :
    (now : ℕ) (valid : Msg → Bool) (qs : List Queue)
    → per_worker (expire_all now valid qs).1 ≡ per_worker qs
unfolding expire_all
expire_all-lifecycle now valid [] = refl
expire_all-lifecycle now valid (q ∷ qs) =
    ground (arith, expire_all-lifecycle now valid qs, expire-lifecycle now valid q.tasks q.stats)

cancel_tasks-lifecycle :
    (session : ℕ) (ts : List Task) (s : Stats)
    → lifecycle_tasks_of (cancel_tasks session ts s).tasks ≡ lifecycle_tasks_of ts
unfolding cancel_tasks
cancel_tasks-lifecycle session [] s = refl
cancel_tasks-lifecycle session (t ∷ ts) s = ground (
  arith,
  cancel_tasks-lifecycle session ts s,
  cancel_tasks-lifecycle session ts (account_remove s t),
)

cancel_queues-lifecycle :
    (session : ℕ) (qs : List Queue) → per_worker (cancel_queues session qs) ≡ per_worker qs
unfolding cancel_queues
cancel_queues-lifecycle session [] = refl
cancel_queues-lifecycle session (q ∷ qs) =
    ground
      (arith, cancel_queues-lifecycle session qs, cancel_tasks-lifecycle session q.tasks q.stats)

-- Cancelling a session drops none of the lifecycle tasks, its own included.
pub cancel_session_lem :
    (w : WorkerPendingTasks) (session : ℕ)
    → per_worker (cancel_session w session).queues ≡ per_worker w.queues
unfolding cancel_session
cancel_session_lem w session = cancel_queues-lifecycle session w.queues

set_queue-per_worker :
    (n : ℕ) (q r : Queue) (qs : List Queue)
    → queue_at n qs ≡ some q
    → lifecycle_tasks_of r.tasks ≡ lifecycle_tasks_of q.tasks
    → per_worker (set_queue n r qs) ≡ per_worker qs
set_queue-per_worker n q r [] e h = refl
set_queue-per_worker n q r (x ∷ xs) e h = elim (Bool-cases (n == 0)) [
  | inl z ↦ let same : x ≡ q = cc (rw z at e) in rw (z, same, h) refl
  | inr z ↦ rw (z, set_queue-per_worker (n - 1) q r xs (rw z at e) h) refl
]

module _ {S : Type 0} (send : S → ℕ → Msg → S × DispatchResult)
    (never : (world : S) (worker : ℕ) (m : Msg) → (send world worker m).1 ≢ is_accepted) where
  drain-lifecycle :
      (l : Limits) (worker : ℕ) (ts : List Task) (s : Stats) (tried total : ℕ) (world : S)
      → lifecycle_tasks_of (drain send l worker ts s tried total world).queue.tasks
        ≡ lifecycle_tasks_of ts
  unfolding drain
  drain-lifecycle l worker [] s tried total world = refl
  drain-lifecycle l worker (t ∷ ts) s tried total world =
      elim (Bool-cases (ltb tried l.per_worker_attempts && ltb total l.global_attempts)) [
        | inr e ↦ rw e refl
        | inl e ↦ elim (DispatchResult-cases (send world worker t.message).1) [
          | inl r ↦ absurd (never world worker t.message r)
          | inr (inl r) ↦ rw (e, r, drain) refl
          | inr (inr r) ↦ elim (Bool-cases t.lifecycle) [
            | inl k ↦ simp (e, r, k, drain) refl
            | inr k ↦
                let failed : Stats = record s {
                  internal_errors = (s.internal_errors + 1) % 2 ^ 64;
                } in
                simp (e, r, k, drain)
                  (drain-lifecycle l worker ts (account_remove failed t) (tried + 1) (total + 1)
                    (send world worker t.message).0)
          ]
        ]
      ]

  drain_workers-lifecycle :
      (l : Limits) (n cursor : ℕ) (qs : List Queue) (total : ℕ) (world : S)
      → per_worker (drain_workers send l n cursor qs total world).1.1.0 ≡ per_worker qs
  unfolding drain_workers
  drain_workers-lifecycle l zero cursor qs total world = refl
  drain_workers-lifecycle l (suc n) cursor qs total world =
      elim (Bool-cases (ltb total l.global_attempts)) [
        | inr e ↦ rw e refl
        | inl e ↦ elim (Option-cases (queue_at cursor qs)) [
          | inl g ↦ rw (e, g, drain_workers) refl
          | inr (q, g) ↦
              let d = drain send l cursor q.tasks q.stats 0 total world in
              rw (e, g, drain_workers)
                (drain_workers-lifecycle l n ((cursor + 1) % length qs)
                    (set_queue cursor d.queue qs) d.total d.world
                  ∙ set_queue-per_worker cursor q d.queue qs g
                      (drain-lifecycle l cursor q.tasks q.stats 0 total world))
        ]
      ]

  -- While no worker takes a task, pumping leaves every worker's lifecycle tasks in its queue, in
  -- their order, at whatever time and whatever sessions are gone.
  pub pump-lifecycle :
      (w : WorkerPendingTasks) (now : ℕ) (valid : Msg → Bool) (world : S)
      → per_worker (pump send w now valid world).1.1.queues ≡ per_worker w.queues
  unfolding pump
  pump-lifecycle w now valid world =
      drain_workers-lifecycle w.limits (length (expire_all now valid w.queues).1) w.cursor
        (expire_all now valid w.queues).1 0 world
      ∙ expire_all-lifecycle now valid w.queues

-- The task that a submission queues.
abbrev pub task_of : Limits → ℕ → Msg → Bool → ℕ → Task
task_of l size_of_task m lifecycle now = record {
  message = m;
  lifecycle = lifecycle;
  deadline = deadline_of l now;
  bytes = (size_of_task + length m.body) % 2 ^ 64;
}

enqueue-queued :
    (l : Limits) (z : ℕ) (q : Queue) (m : Msg) (lifecycle : Bool) (now : ℕ)
    → (((enqueue l z q m lifecycle now).0 ≡ pending)
        × ((enqueue l z q m lifecycle now).1.tasks ≡ q.tasks ++ (task_of l z m lifecycle now ∷ [])))
      ⊎ ((lifecycle ≡ false)
          × (((enqueue l z q m lifecycle now).0 ≡ busy)
              × ((enqueue l z q m lifecycle now).1.tasks ≡ q.tasks)))
unfolding enqueue push_task
enqueue-queued l z q m true now = inl (refl, refl)
enqueue-queued l z q m false now =
    let bytes = (z + length m.body) % 2 ^ 64 in
    elim (Bool-cases (leb l.max_business_tasks q.stats.business_tasks)) [
      | inl e ↦ rw e (inr (refl, (refl, refl)))
      | inr e ↦
          elim (Bool-cases (
            ltb l.max_business_bytes bytes
            || ltb (l.max_business_bytes - bytes) q.stats.business_bytes)) [
              | inl g ↦ rw (e, g) (inr (refl, (refl, refl)))
              | inr g ↦ rw (e, g) (inl (refl, refl))
            ]
    ]

-- What becomes of a submitted task.
abbrev pub Fate :
    Limits → ℕ → DispatchResult → Queue → Msg → Bool → ℕ → Admission → List Task → Type 0
Fate l z r q m lifecycle now answer tasks =
    ((answer ≡ pending) × (tasks ≡ q.tasks ++ (task_of l z m lifecycle now ∷ [])))
    ⊎ (((answer ≡ accepted) × ((r ≡ is_accepted) × ((is_nil q.tasks ≡ true) × (tasks ≡ q.tasks))))
        ⊎ ((lifecycle ≡ false)
            × (((answer ≡ busy) ⊎ (answer ≡ internal_error)) × (tasks ≡ q.tasks))))

enqueue-Fate :
    (l : Limits) (z : ℕ) (r : DispatchResult) (q : Queue) (s : Stats) (m : Msg) (lifecycle : Bool)
    (now : ℕ)
    → (let (a, q') = enqueue l z (record q { stats = s }) m lifecycle now in
        Fate l z r q m lifecycle now a q'.tasks)
enqueue-Fate l z r q s m lifecycle now =
    elim (enqueue-queued l z (record q { stats = s }) m lifecycle now) [
      | inl h ↦ inl h
      | inr (f, (b, t)) ↦ inr (inr (f, (inl b, t)))
    ]

submit_to_empty :
    (l : Limits) (z : ℕ) (r : DispatchResult) (s : Stats) (m : Msg) (lifecycle : Bool) (now : ℕ)
    → (let q : Queue = record { tasks = []; stats = s } in
        let (a, q') = submit_to l z r q m lifecycle now in Fate l z r q m lifecycle now a q'.tasks)
unfolding submit_to direct
submit_to_empty l z is_accepted s m lifecycle now = inr (inl (refl, (refl, (refl, refl))))
submit_to_empty l z backpressure s m true now =
    enqueue-Fate l z backpressure (record { tasks = []; stats = s }) s m true now
submit_to_empty l z backpressure s m false now = inr (inr (refl, (inl refl, refl)))
submit_to_empty l z refused s m true now =
    enqueue-Fate l z refused (record { tasks = []; stats = s })
      (record s { internal_errors = (s.internal_errors + 1) % 2 ^ 64 }) m true now
submit_to_empty l z refused s m false now = inr (inr (refl, (inr refl, refl)))

submit_to_tasks :
    (l : Limits) (z : ℕ) (r : DispatchResult) (ts : List Task) (s : Stats) (m : Msg)
    (lifecycle : Bool) (now : ℕ)
    → (let q : Queue = record { tasks = ts; stats = s } in
        let (a, q') = submit_to l z r q m lifecycle now in Fate l z r q m lifecycle now a q'.tasks)
unfolding submit_to
submit_to_tasks l z r [] s m lifecycle now = submit_to_empty l z r s m lifecycle now
submit_to_tasks l z r (t ∷ ts) s m lifecycle now =
    enqueue-Fate l z r (record { tasks = t ∷ ts; stats = s }) s m lifecycle now

submit_to_lem :
    (l : Limits) (z : ℕ) (r : DispatchResult) (q : Queue) (m : Msg) (lifecycle : Bool) (now : ℕ)
    → (let (a, q') = submit_to l z r q m lifecycle now in Fate l z r q m lifecycle now a q'.tasks)
submit_to_lem l z r q m lifecycle now = submit_to_tasks l z r q.tasks q.stats m lifecycle now

-- What `submit` leaves: without a queue for the worker everything as it was, with the answer
-- `InternalError`; else the queue of this worker alone is another, and the task has its fate.
abbrev pub Submitted :
    WorkerPendingTasks
    → ℕ
    → DispatchResult
    → ℕ
    → Msg
    → Bool
    → ℕ
    → Admission
    → WorkerPendingTasks
    → Type 0
Submitted w z r worker m lifecycle now answer w' =
    ((queue_at worker w.queues ≡ none) × ((answer ≡ internal_error) × (w' ≡ w)))
    ⊎ ((q : Queue) × (q' : Queue) × (queue_at worker w.queues ≡ some q)
        × (w' ≡ record w { queues = set_queue worker q' w.queues })
        × Fate w.limits z r q m lifecycle now answer q'.tasks)

-- A submission for a worker that does not exist is answered with `InternalError` and changes
-- nothing, for lifecycle tasks too. For a worker that exists, the queues of the other workers
-- stay, and the task is queued behind all tasks of its worker with the answer `Pending`, or it
-- was sent at once, which happens only to an empty queue, or it is refused: then it is a
-- business task, the answer is `Busy` or `InternalError`, and the queue's tasks stay.
pub submit_lem :
    (w : WorkerPendingTasks) (z : ℕ) (r : DispatchResult) (worker : ℕ) (m : Msg) (lifecycle : Bool)
    (now : ℕ)
    → (let (a, w') = submit w z r worker m lifecycle now in
        Submitted w z r worker m lifecycle now a w')
unfolding submit
submit_lem w z r worker m lifecycle now = elim (Option-cases (queue_at worker w.queues)) [
  | inl e ↦ rw (submit, e) (inl (refl, (refl, refl)))
  | inr (q, e) ↦
      rw (submit, e)
        (inr (
          q,
          (submit_to w.limits z r q m lifecycle now).1,
          refl,
          refl,
          submit_to_lem w.limits z r q m lifecycle now,
        ))
]
