-- ===== src/Scene/WorkerPending/Submission.antt =====
-- A submission keeps a queue's statistics right and its tasks within the limits.
use mmorpg_game_server.Common.{
  ℕ, ◌+◌, ◌-◌, ◌%◌, ◌^◌, ◌≤◌, ◌<◌, ◌≡◌, inl, inr, Bool, true, false, ◌&&◌, ◌||◌, not, List, [], ◌∷◌,
  ◌++◌, arith, ltb, leb, if◌then◌else◌, Bool-cases, Option-cases, length,
}
use mmorpg_game_server.Scene.WorkerPending.{
  Msg, Limits, DispatchResult, is_accepted, backpressure, refused, Stats, Task, Queue, is_nil,
  direct, deadline_of, push_task, enqueue, submit_to,
}
use mmorpg_game_server.Scene.WorkerPending.Accounts.{
  FitLimits, Shows, Balanced, business_of, bytes_of, lifecycle_of,
}

-- The numbers of a queue with a task at its end.
business_of-snoc :
    (t : Task) (ts : List Task)
    → business_of (ts ++ (t ∷ [])) ≡ business_of ts + (if t.lifecycle then 0 else 1)
business_of-snoc t [] = ground arith
business_of-snoc t (u ∷ ts) = omega (arith, business_of-snoc t ts)

bytes_of-snoc :
    (t : Task) (ts : List Task)
    → bytes_of (ts ++ (t ∷ [])) ≡ bytes_of ts + (if t.lifecycle then 0 else t.bytes)
bytes_of-snoc t [] = ground arith
bytes_of-snoc t (u ∷ ts) = omega (arith, bytes_of-snoc t ts)

lifecycle_of-snoc :
    (t : Task) (ts : List Task)
    → lifecycle_of (ts ++ (t ∷ [])) ≡ lifecycle_of ts + (if t.lifecycle then 1 else 0)
lifecycle_of-snoc t [] = ground arith
lifecycle_of-snoc t (u ∷ ts) = omega (arith, lifecycle_of-snoc t ts)

-- A task that the limits have room for.
push_task-Balanced :
    {l : Limits} (q : Queue) (m : Msg) (lifecycle : Bool) (now bytes : ℕ)
    → FitLimits l
    → Balanced l q
    → (lifecycle ≡ false
        → (q.stats.business_tasks < l.max_business_tasks)
          × (q.stats.business_bytes + bytes ≤ l.max_business_bytes))
    → Balanced l (push_task l q m lifecycle now bytes)
unfolding push_task
push_task-Balanced {l} q m true now bytes f h room =
    let t : Task = record {
      message = m;
      lifecycle = true;
      deadline = deadline_of l now;
      bytes = bytes;
    } in
    record {
      tasks_right =
          ground
            (arith, h.tasks_right, h.tasks_limit, room, f.tasks_fit, business_of-snoc t q.tasks);
      bytes_right =
          ground (arith, h.bytes_right, h.bytes_limit, room, f.bytes_fit, bytes_of-snoc t q.tasks);
      life_right = ground (arith, h.life_right, lifecycle_of-snoc t q.tasks);
      tasks_limit = ground (arith, h.tasks_right, h.tasks_limit, room, business_of-snoc t q.tasks);
      bytes_limit = ground (arith, h.bytes_right, h.bytes_limit, room, bytes_of-snoc t q.tasks);
    }
push_task-Balanced {l} q m false now bytes f h room =
    let t : Task = record {
      message = m;
      lifecycle = false;
      deadline = deadline_of l now;
      bytes = bytes;
    } in
    record {
      tasks_right =
          ground
            (arith, h.tasks_right, h.tasks_limit, room, f.tasks_fit, business_of-snoc t q.tasks);
      bytes_right =
          ground (arith, h.bytes_right, h.bytes_limit, room, f.bytes_fit, bytes_of-snoc t q.tasks);
      life_right = ground (arith, h.life_right, lifecycle_of-snoc t q.tasks);
      tasks_limit = ground (arith, h.tasks_right, h.tasks_limit, room, business_of-snoc t q.tasks);
      bytes_limit = ground (arith, h.bytes_right, h.bytes_limit, room, bytes_of-snoc t q.tasks);
    }

enqueue-Balanced :
    {l : Limits} (size_of_task : ℕ) (q : Queue) (m : Msg) (lifecycle : Bool) (now : ℕ)
    → FitLimits l
    → Balanced l q
    → Balanced l (enqueue l size_of_task q m lifecycle now).1
unfolding enqueue
enqueue-Balanced {l} size_of_task q m lifecycle now f h =
    let bytes = (size_of_task + length m.body) % 2 ^ 64 in
    elim (Bool-cases (not lifecycle && leb l.max_business_tasks q.stats.business_tasks)) [
      | inl e ↦ rw e (record {
        tasks_right = h.tasks_right;
        bytes_right = h.bytes_right;
        life_right = h.life_right;
        tasks_limit = h.tasks_limit;
        bytes_limit = h.bytes_limit;
      })
      | inr e ↦
          elim (Bool-cases (
            not lifecycle
            && (ltb l.max_business_bytes bytes
                || ltb (l.max_business_bytes - bytes) q.stats.business_bytes))) [
                  | inl g ↦
                      rw (e, g)
                        (record {
                          tasks_right = h.tasks_right;
                          bytes_right = h.bytes_right;
                          life_right = h.life_right;
                          tasks_limit = h.tasks_limit;
                          bytes_limit = h.bytes_limit;
                        })
                  | inr g ↦
                      rw (e, g)
                        (push_task-Balanced q m lifecycle now bytes f h
                          (λ k. (ground (arith, e, k), ground (arith, g, k))))
                ]
    ]

direct-Shows :
    {l : Limits} (r : DispatchResult) (lifecycle : Bool) (b y n : ℕ) (s : Stats)
    → Shows l b y n s
    → Shows l b y n (direct r lifecycle s).1
unfolding direct
direct-Shows is_accepted lifecycle b y n s h = (record {
  tasks_right = h.tasks_right;
  bytes_right = h.bytes_right;
  life_right = h.life_right;
  tasks_limit = h.tasks_limit;
  bytes_limit = h.bytes_limit;
})
direct-Shows backpressure true b y n s h = h
direct-Shows backpressure false b y n s h = (record {
  tasks_right = h.tasks_right;
  bytes_right = h.bytes_right;
  life_right = h.life_right;
  tasks_limit = h.tasks_limit;
  bytes_limit = h.bytes_limit;
})
direct-Shows refused lifecycle b y n s h = (record {
  tasks_right = h.tasks_right;
  bytes_right = h.bytes_right;
  life_right = h.life_right;
  tasks_limit = h.tasks_limit;
  bytes_limit = h.bytes_limit;
})

pub submit_to-Balanced :
    {l : Limits} (size_of_task : ℕ) (r : DispatchResult) (q : Queue) (m : Msg) (lifecycle : Bool)
    (now : ℕ)
    → FitLimits l
    → Balanced l q
    → Balanced l (submit_to l size_of_task r q m lifecycle now).1
unfolding submit_to
submit_to-Balanced {l} size_of_task r q m lifecycle now f h = elim (Bool-cases (is_nil q.tasks)) [
  | inr e ↦ rw e (enqueue-Balanced size_of_task q m lifecycle now f h)
  | inl e ↦
      let counted = direct-Shows r lifecycle _ _ _ q.stats h in
      elim (Option-cases (direct r lifecycle q.stats).0) [
        | inl k ↦
            rw (e, k, submit_to)
              (enqueue-Balanced size_of_task (record q { stats = (direct r lifecycle q.stats).1 }) m
                lifecycle now f counted)
        | inr (a, k) ↦ rw (e, k, submit_to) counted
      ]
]
