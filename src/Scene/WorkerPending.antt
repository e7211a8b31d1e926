-- ===== src/Scene/WorkerPending.antt =====
-- The network thread's queues of tasks for the workers (sceneServer/src-cpp/net/workerPendingTasks.h).
pub mod Accounts
pub mod Submission
pub mod History
pub mod Lifecycle
mod Tests
use mmorpg_game_server.Common.{
  ℕ, zero, suc, ◌+◌, ◌-◌, ◌*◌, ◌/◌, ◌%◌, ◌^◌, ◌≤◌, ◌<◌, min, ◌≡◌, refl, sym, ap, ◌∙◌, ◌≢◌, ◌⊎◌, inl,
  inr, ◌↔◌, Bool, true, false, ◌&&◌, ◌||◌, not, Option, none, some, List, [], ◌∷◌, ◌++◌, map,
  append-nil, append_assoc, arith, ltb, leb, ◌==◌, if◌then◌else◌, Bool-cases, Option-cases, ==-refl,
  ltb→lt, lt→ltb, le→not_ltb, not_ltb→le, ==→eq, length, get_or, take, drop, replicate, retain,
  length-append, length-take, length-drop, length-replicate, take_all, drop_all, take-length-append,
  drop-length-append, drop-drop, drop-take, take-take, take-append-drop, take-append_le,
  drop-append_le, length-retain-le, All, All-append,
}

-- What the queue reads of a message; the rest of it is only carried.
pub record Msg : Type 0 where
  pub session : ℕ
  pub body : List ℕ

pub record Limits : Type 0 where
  pub max_business_tasks : ℕ
  pub max_business_bytes : ℕ
  pub business_timeout_ms : ℕ
  pub per_worker_attempts : ℕ
  pub global_attempts : ℕ
  pub retry_interval_ms : ℕ

positive : ℕ → Bool
positive n = not (n == 0)

pub limits_valid : Limits → Bool
unfolding positive
limits_valid l =
    positive l.max_business_tasks
    && (positive l.max_business_bytes
        && (positive l.business_timeout_ms
            && (leb l.business_timeout_ms 3600000
                && (positive l.per_worker_attempts
                    && (positive l.global_attempts
                        && (positive l.retry_interval_ms && leb l.retry_interval_ms 1000))))))

-- `Admission`
pub data Admission : Type 0 where
  accepted pending busy internal_error : Admission

-- `DispatchResult`, of which the queue tells these three kinds apart.
pub data DispatchResult : Type 0 where
  is_accepted backpressure refused : DispatchResult

-- `gs::ErrorCode`
pub data ErrorCode : Type 0 where
  pending_timeout player_session_invalid internal : ErrorCode

pub record Rejected : Type 0 where
  pub message : Msg
  pub code : ErrorCode

pub record Stats : Type 0 where
  pub business_tasks : ℕ
  pub business_bytes : ℕ
  pub lifecycle_tasks : ℕ
  pub accepted_count : ℕ
  pub busy_count : ℕ
  pub expired : ℕ
  pub stale : ℕ
  pub internal_errors : ℕ
  pub direct_busy : ℕ
  pub task_limit_busy : ℕ
  pub byte_limit_busy : ℕ

pub record Task : Type 0 where
  pub message : Msg
  pub lifecycle : Bool
  pub deadline : ℕ
  pub bytes : ℕ

pub record Queue : Type 0 where
  pub tasks : List Task
  pub stats : Stats

pub record WorkerPendingTasks : Type 0 where
  pub queues : List Queue
  pub limits : Limits
  pub cursor : ℕ

abbrev pub no_stats : Stats
no_stats = record {
  business_tasks = 0;
  business_bytes = 0;
  lifecycle_tasks = 0;
  accepted_count = 0;
  busy_count = 0;
  expired = 0;
  stale = 0;
  internal_errors = 0;
  direct_busy = 0;
  task_limit_busy = 0;
  byte_limit_busy = 0;
}

abbrev pub empty_queue : Queue
empty_queue = record { tasks = []; stats = no_stats }

-- The constructor; `none` is the exception `std::invalid_argument`.
pub create : ℕ → Limits → Option WorkerPendingTasks
unfolding limits_valid
create workers limits =
    if workers == 0 || not (limits_valid limits)
    then none
    else some (record { queues = replicate workers empty_queue; limits = limits; cursor = 0 })

-- `std::deque::empty`
abbrev pub is_nil {ℓ} : {A : Type ℓ} → List A → Bool
is_nil [] = true
is_nil (x ∷ xs) = false

pub empty : List Queue → Bool
empty [] = true
empty (q ∷ qs) = is_nil q.tasks && empty qs

-- `++` and `--` on a counter of 64 bits.
abbrev pub up : ℕ → ℕ
up n = (n + 1) % 2 ^ 64

abbrev pub down : ℕ → ℕ → ℕ
down n k = (n + 2 ^ 64 - k) % 2 ^ 64

-- `accountRemove`
pub account_remove : Stats → Task → Stats
account_remove s t =
    if t.lifecycle then record s { lifecycle_tasks = down s.lifecycle_tasks 1 } else record s {
      business_tasks = down s.business_tasks 1;
      business_bytes = down s.business_bytes t.bytes;
    }

-- `submit` on a queue without tasks, by the outcome of `send`: an answer, or none where the task is
-- to be queued.
pub direct : DispatchResult → Bool → Stats → Option Admission × Stats
direct is_accepted lifecycle s = (some accepted, record s { accepted_count = up s.accepted_count })
direct backpressure lifecycle s =
    if lifecycle
    then (none, s)
    else (some busy, record s { busy_count = up s.busy_count; direct_busy = up s.direct_busy })
direct refused lifecycle s = (
  if lifecycle then none else some internal_error,
  record s { internal_errors = up s.internal_errors },
)

-- The time a business task expires at, which stops at the largest 64-bit number.
pub deadline_of : Limits → ℕ → ℕ
deadline_of l now =
    let timeout = l.business_timeout_ms * 1000 % 2 ^ 64 in
    if ltb (2 ^ 64 - 1 - timeout) now then 2 ^ 64 - 1 else (now + timeout) % 2 ^ 64

-- The end of `submit`.
pub push_task : Limits → Queue → Msg → Bool → ℕ → ℕ → Queue
unfolding deadline_of
push_task l q message lifecycle now bytes =
    let task : Task = record {
      message = message;
      lifecycle = lifecycle;
      deadline = deadline_of l now;
      bytes = bytes;
    } in
    let s = q.stats in
    record {
      tasks = q.tasks ++ (task ∷ []);
      stats = if lifecycle then record s { lifecycle_tasks = up s.lifecycle_tasks } else record s {
        business_tasks = up s.business_tasks;
        business_bytes = (s.business_bytes + bytes) % 2 ^ 64;
      };
    }

-- `submit` where the task is not sent at once.
pub enqueue : Limits → ℕ → Queue → Msg → Bool → ℕ → Admission × Queue
unfolding push_task
enqueue l size_of_task q message lifecycle now =
    let bytes = (size_of_task + length message.body) % 2 ^ 64 in
    let s = q.stats in
    if not lifecycle && leb l.max_business_tasks s.business_tasks
    then (
      busy,
      record q {
        stats = record s { busy_count = up s.busy_count; task_limit_busy = up s.task_limit_busy };
      },
    )
    else if not lifecycle
        && (ltb l.max_business_bytes bytes || ltb (l.max_business_bytes - bytes) s.business_bytes)
    then (
      busy,
      record q {
        stats = record s { busy_count = up s.busy_count; byte_limit_busy = up s.byte_limit_busy };
      },
    )
    else (pending, push_task l q message lifecycle now bytes)

-- `submit` on the worker's queue. `result` is what `send` returns if it is called.
pub submit_to : Limits → ℕ → DispatchResult → Queue → Msg → Bool → ℕ → Admission × Queue
unfolding direct enqueue
submit_to l size_of_task result q message lifecycle now =
    if is_nil q.tasks
    then elim (direct result lifecycle q.stats).0 [
      | some a ↦ (a, record q { stats = (direct result lifecycle q.stats).1 })
      | none ↦
          enqueue l size_of_task (record q { stats = (direct result lifecycle q.stats).1 }) message
            lifecycle now
    ]
    else enqueue l size_of_task q message lifecycle now

abbrev pub queue_at : ℕ → List Queue → Option Queue
queue_at n [] = none
queue_at n (q ∷ qs) = if n == 0 then some q else queue_at (n - 1) qs

abbrev pub set_queue : ℕ → Queue → List Queue → List Queue
set_queue n r [] = []
set_queue n r (q ∷ qs) = if n == 0 then r ∷ qs else q ∷ set_queue (n - 1) r qs

-- The counter for a dropped business task, by whether its time has come.
pub count_dropped : Bool → Stats → Stats
count_dropped true s = record s { expired = up s.expired }
count_dropped false s = record s { stale = up s.stale }

-- The loop that drops the business tasks whose time has come or whose session is gone.
pub expire : ℕ → (Msg → Bool) → List Task → Stats → List Rejected × (List Task × Stats)
unfolding account_remove count_dropped
expire now valid [] s = ([], ([], s))
expire now valid (t ∷ ts) s =
    let code = if leb t.deadline now then pending_timeout else player_session_invalid in
    let (gone, (left, out)) =
      expire now valid ts (account_remove (count_dropped (leb t.deadline now) s) t) in
    let (gone_kept, (left_kept, out_kept)) = expire now valid ts s in
    if not t.lifecycle && (leb t.deadline now || not (valid t.message))
    then (record { message = t.message; code = code } ∷ gone, (left, out))
    else (gone_kept, (t ∷ left_kept, out_kept))

pub expire_all : ℕ → (Msg → Bool) → List Queue → List Rejected × List Queue
unfolding expire
expire_all now valid [] = ([], [])
expire_all now valid (q ∷ qs) =
    let (gone, (left, s)) = expire now valid q.tasks q.stats in
    let (more, rest) = expire_all now valid qs in
    (gone ++ more, record { tasks = left; stats = s } ∷ rest)

-- `cancelSession`
pub cancel_tasks : ℕ → List Task → Stats → Queue
unfolding account_remove
cancel_tasks session [] s = record { tasks = []; stats = s }
cancel_tasks session (t ∷ ts) s =
    let dropped = cancel_tasks session ts (account_remove s t) in
    let rest = cancel_tasks session ts s in
    if not t.lifecycle && t.message.session == session
    then dropped
    else record rest { tasks = t ∷ rest.tasks }

pub cancel_queues : ℕ → List Queue → List Queue
unfolding cancel_tasks
cancel_queues session [] = []
cancel_queues session (q ∷ qs) = cancel_tasks session q.tasks q.stats ∷ cancel_queues session qs

pub cancel_session : WorkerPendingTasks → ℕ → WorkerPendingTasks
unfolding cancel_queues
cancel_session w session = record w { queues = cancel_queues session w.queues }

-- What the loop over one worker's tasks leaves. `world` is what the calls of `send` change.
pub record Drained (S : Type 0) : Type 0 where
  pub world : S
  pub queue : Queue
  pub rejected : List Rejected
  pub total : ℕ

-- A `break`, with the tasks in the queue.
abbrev pub stop_at : {S : Type 0} → Task → List Task → Stats → ℕ → S → Drained S
stop_at t ts s total world = record {
  world = world;
  queue = record { tasks = t ∷ ts; stats = s };
  rejected = [];
  total = total;
}

module _ {S : Type 0} (send : S → ℕ → Msg → S × DispatchResult) where
  -- The inner loop of `pump`, on the tasks that are left.
  pub drain : Limits → ℕ → List Task → Stats → ℕ → ℕ → S → Drained S
  drain l worker [] s tried total world = record {
    world = world;
    queue = record { tasks = []; stats = s };
    rejected = [];
    total = total;
  }
  drain l worker (t ∷ ts) s tried total world =
      let (world', result) = send world worker t.message in
      let failed = record s { internal_errors = up s.internal_errors } in
      let sent =
        drain l worker ts (account_remove (record s { accepted_count = up s.accepted_count }) t)
          (tried + 1) (total + 1) world' in
      let dropped = drain l worker ts (account_remove failed t) (tried + 1) (total + 1) world' in
      if ltb tried l.per_worker_attempts && ltb total l.global_attempts
      then elim result [
        | backpressure ↦ stop_at t ts s (total + 1) world'
        | is_accepted ↦ sent
        | refused ↦ if t.lifecycle then stop_at t ts failed (total + 1) world' else record dropped {
          rejected = record { message = t.message; code = internal } ∷ dropped.rejected;
        }
      ]
      else stop_at t ts s total world

  -- The loop over the workers, for `n` more rounds.
  pub drain_workers : Limits → ℕ → ℕ → List Queue → ℕ → S → S × (List Rejected × (List Queue × ℕ))
  unfolding drain
  drain_workers l zero cursor qs total world = (world, ([], (qs, cursor)))
  drain_workers l (suc n) cursor qs total world =
      let next = (cursor + 1) % length qs in
      if ltb total l.global_attempts
      then elim (queue_at cursor qs) [
        | none ↦ (world, ([], (qs, cursor)))
        | some q ↦
            let d = drain l cursor q.tasks q.stats 0 total world in
            let (world', (more, rest)) =
              drain_workers l n next (set_queue cursor d.queue qs) d.total d.world in
            (world', (d.rejected ++ more, rest))
      ]
      else (world, ([], (qs, cursor)))

  pub pump : WorkerPendingTasks → ℕ → (Msg → Bool) → S → S × (List Rejected × WorkerPendingTasks)
  unfolding expire_all drain_workers
  pump w now valid world =
      let (gone, qs) = expire_all now valid w.queues in
      let (world', (more, (out, cursor))) =
        drain_workers w.limits (length qs) w.cursor qs 0 world in
      (world', (gone ++ more, record w { queues = out; cursor = cursor }))

-- `submit`, with `send` called where the worker's queue is empty.
pub submit :
    WorkerPendingTasks → ℕ → DispatchResult → ℕ → Msg → Bool → ℕ → Admission × WorkerPendingTasks
unfolding submit_to
submit w size_of_task result worker message lifecycle now = elim (queue_at worker w.queues) [
  | none ↦ (internal_error, w)
  | some q ↦
      let (a, q') = submit_to w.limits size_of_task result q message lifecycle now in
      (a, record w { queues = set_queue worker q' w.queues })
]

-- The wait until the next business task of these expires, at most `wait`.
wait_tasks : ℕ → List Task → ℕ → ℕ
wait_tasks now [] wait = wait
wait_tasks now (t ∷ ts) wait =
    let ms = if leb t.deadline now then 0 else (t.deadline - now + 999) % 2 ^ 64 / 1000 in
    if t.lifecycle then wait_tasks now ts wait else wait_tasks now ts (min wait ms)

wait_queues : ℕ → List Queue → ℕ → ℕ
unfolding wait_tasks
wait_queues now [] wait = wait
wait_queues now (q ∷ qs) wait = wait_queues now qs (wait_tasks now q.tasks wait)

-- `waitMs`, with `none` for the result -1.
pub wait_ms : WorkerPendingTasks → ℕ → Option ℕ
unfolding empty wait_queues
wait_ms w now =
    if empty w.queues then none else some (wait_queues now w.queues w.limits.retry_interval_ms)
