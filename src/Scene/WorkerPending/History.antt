-- ===== src/Scene/WorkerPending/History.antt =====
-- Histories of submissions, pumps and cancellations.
use native.Mathlib.Nat.{mod-lt}
use mmorpg_game_server.Common.{
  ℕ, zero, suc, ◌+◌, ◌-◌, ◌%◌, ◌<◌, ◌≡◌, refl, inl, inr, Bool, ◌||◌, not, some, List, [], ◌∷◌,
  arith, ltb, ◌==◌, Bool-cases, Option-cases, length, replicate, length-replicate, All,
}
use mmorpg_game_server.Scene.WorkerPending.{
  Msg, Limits, limits_valid, DispatchResult, Queue, WorkerPendingTasks, empty_queue, create, submit,
  queue_at, set_queue, submit_to, expire_all, cancel_queues, cancel_session, drain, drain_workers,
  pump,
}
use mmorpg_game_server.Scene.WorkerPending.Submission.{submit_to-Balanced}
use mmorpg_game_server.Scene.WorkerPending.Accounts.{
  FitLimits, Balanced, expire-Balanced, cancel_tasks-Balanced, drain-Balanced,
}

-- Every queue's statistics tell its tasks, which are within the limits, and the next worker exists.
pub record Inv (w : WorkerPendingTasks) : Type 0 where
  pub balanced : All (Balanced w.limits) w.queues
  pub in_range : w.cursor < length w.queues
  pub fit : FitLimits w.limits

queue_at-All :
    (P : Queue → Type 0) (n : ℕ) (qs : List Queue) (q : Queue)
    → All P qs
    → queue_at n qs ≡ some q
    → P q
queue_at-All P n [] q a e = cc e
queue_at-All P n (x ∷ xs) q (p, a) e = elim (Bool-cases (n == 0)) [
  | inl z ↦ let same : x ≡ q = cc (rw z at e) in rw (← same) p
  | inr z ↦ queue_at-All P (n - 1) xs q a (rw z at e)
]

set_queue-All :
    (P : Queue → Type 0) (n : ℕ) (r : Queue) (qs : List Queue)
    → All P qs
    → P r
    → All P (set_queue n r qs)
set_queue-All P n r [] a p = a
set_queue-All P n r (x ∷ xs) (h, a) p = elim (Bool-cases (n == 0)) [
  | inl z ↦ rw z (p, a)
  | inr z ↦ rw z (h, set_queue-All P (n - 1) r xs a p)
]

length-set_queue : (n : ℕ) (r : Queue) (qs : List Queue) → length (set_queue n r qs) ≡ length qs
length-set_queue n r [] = refl
length-set_queue n r (x ∷ xs) = ground (arith, length-set_queue (n - 1) r xs)

expire_all-All :
    {l : Limits} (now : ℕ) (valid : Msg → Bool) (qs : List Queue)
    → FitLimits l
    → All (Balanced l) qs
    → All (Balanced l) (expire_all now valid qs).1
unfolding expire_all
expire_all-All now valid [] f a = tt
expire_all-All now valid (q ∷ qs) f (p, a) =
    (expire-Balanced now valid q f p, expire_all-All now valid qs f a)

length-expire_all :
    (now : ℕ) (valid : Msg → Bool) (qs : List Queue)
    → length (expire_all now valid qs).1 ≡ length qs
unfolding expire_all
length-expire_all now valid [] = refl
length-expire_all now valid (q ∷ qs) = omega (arith, length-expire_all now valid qs)

cancel_queues-All :
    {l : Limits} (session : ℕ) (qs : List Queue)
    → FitLimits l
    → All (Balanced l) qs
    → All (Balanced l) (cancel_queues session qs)
unfolding cancel_queues
cancel_queues-All session [] f a = tt
cancel_queues-All session (q ∷ qs) f (p, a) =
    (cancel_tasks-Balanced session q f p, cancel_queues-All session qs f a)

length-cancel_queues :
    (session : ℕ) (qs : List Queue) → length (cancel_queues session qs) ≡ length qs
unfolding cancel_queues
length-cancel_queues session [] = refl
length-cancel_queues session (q ∷ qs) = omega (arith, length-cancel_queues session qs)

-- What a list of queues and the next worker keep.
Kept : Limits → List Queue → ℕ → Type 0
Kept l qs cursor = All (Balanced l) qs × (cursor < length qs)

module _ {S : Type 0} (send : S → ℕ → Msg → S × DispatchResult) where
  drain_workers-Kept :
      {l : Limits} (n cursor : ℕ) (qs : List Queue) (total : ℕ) (world : S)
      → FitLimits l
      → Kept l qs cursor
      → (let (out, next) = (drain_workers send l n cursor qs total world).1.1 in Kept l out next)
  unfolding drain_workers Kept
  drain_workers-Kept zero cursor qs total world f k = k
  drain_workers-Kept {l} (suc n) cursor qs total world f (a, c) =
      elim (Bool-cases (ltb total l.global_attempts)) [
        | inr e ↦ rw e (a, c)
        | inl e ↦ elim (Option-cases (queue_at cursor qs)) [
          | inl g ↦ rw (e, g, drain_workers) (a, c)
          | inr (q, g) ↦
              let d = drain send l cursor q.tasks q.stats 0 total world in
              let b =
                drain-Balanced send cursor q.tasks q.stats 0 total world f
                  (queue_at-All (Balanced l) cursor qs q a g) in
              rw (e, g, drain_workers)
                (drain_workers-Kept n ((cursor + 1) % length qs) (set_queue cursor d.queue qs)
                  d.total d.world f
                  (
                    set_queue-All (Balanced l) cursor d.queue qs a b,
                    ground (
                      arith,
                      c,
                      length-set_queue cursor d.queue qs,
                      mod-lt (cursor + 1) {m = length qs},
                    ),
                  ))
        ]
      ]

pump-Inv :
    {S : Type 0} (send : S → ℕ → Msg → S × DispatchResult) (w : WorkerPendingTasks) (now : ℕ)
    (valid : Msg → Bool) (world : S)
    → Inv w
    → Inv (pump send w now valid world).1.1
unfolding pump Kept
pump-Inv send w now valid world v =
    let qs = (expire_all now valid w.queues).1 in
    let (a, c) = drain_workers-Kept send (length qs) w.cursor qs 0 world v.fit (
      expire_all-All now valid w.queues v.fit v.balanced,
      omega (arith, v.in_range, length-expire_all now valid w.queues),
    ) in
    record { balanced = a; in_range = c; fit = v.fit }

cancel_session-Inv : (w : WorkerPendingTasks) (session : ℕ) → Inv w → Inv (cancel_session w session)
unfolding cancel_session
cancel_session-Inv w session v = record {
  balanced = cancel_queues-All session w.queues v.fit v.balanced;
  in_range = omega (arith, v.in_range, length-cancel_queues session w.queues);
  fit = v.fit;
}

submit-Inv :
    (w : WorkerPendingTasks) (size_of_task : ℕ) (r : DispatchResult) (worker : ℕ) (m : Msg)
    (lifecycle : Bool) (now : ℕ)
    → Inv w
    → Inv (submit w size_of_task r worker m lifecycle now).1
unfolding submit
submit-Inv w size_of_task r worker m lifecycle now v =
    elim (Option-cases (queue_at worker w.queues)) [
      | inl e ↦ rw (e, submit) v
      | inr (q, e) ↦
          let q' = (submit_to w.limits size_of_task r q m lifecycle now).1 in
          rw (e, submit)
            (record {
              balanced = set_queue-All (Balanced w.limits) worker q' w.queues v.balanced (
                  submit_to-Balanced size_of_task r q m lifecycle now v.fit
                    (queue_at-All (Balanced w.limits) worker w.queues q v.balanced e));
              in_range = omega (arith, v.in_range, length-set_queue worker q' w.queues);
              fit = v.fit;
            })
    ]

replicate-All : (l : Limits) (n : ℕ) → All (Balanced l) (replicate n empty_queue)
replicate-All l zero = tt
replicate-All l (suc n) = (
  record {
    tasks_right = refl;
    bytes_right = refl;
    life_right = refl;
    tasks_limit = omega arith;
    bytes_limit = omega arith;
  },
  replicate-All l n,
)

pub create-Inv :
    (workers : ℕ) (l : Limits) (w : WorkerPendingTasks)
    → FitLimits l
    → create workers l ≡ some w
    → Inv w
unfolding create
create-Inv workers l w f e = elim (Bool-cases (workers == 0 || not (limits_valid l))) [
  | inl z ↦ cc (rw z at e)
  | inr z ↦
      let same : record { queues = replicate workers empty_queue; limits = l; cursor = 0 } ≡ w =
        cc (rw z at e) in
      rw (← same) (record {
        balanced = replicate-All l workers;
        in_range = ground (arith, z, length-replicate {0} {A = Queue} workers empty_queue);
        fit = f;
      })
]

-- A call on the queues. `submits` gives what `send` returns if it is called, `pumps` what each call
-- of `send` does to a world of its own.
pub data Call : Type 1 where
  submits : DispatchResult → ℕ → Msg → Bool → ℕ → Call
  pumps : (S : Type 0) → (S → ℕ → Msg → S × DispatchResult) → S → ℕ → (Msg → Bool) → Call
  cancels : ℕ → Call

unfoldable pub step : ℕ → WorkerPendingTasks → Call → WorkerPendingTasks
step size_of_task w (submits r worker m lifecycle now) =
    (submit w size_of_task r worker m lifecycle now).1
step size_of_task w (pumps S send world now valid) = (pump send w now valid world).1.1
step size_of_task w (cancels session) = cancel_session w session

unfoldable pub run : ℕ → WorkerPendingTasks → List Call → WorkerPendingTasks
unfolding step
run size_of_task w [] = w
run size_of_task w (c ∷ cs) = run size_of_task (step size_of_task w c) cs

step-Inv :
    (size_of_task : ℕ) (w : WorkerPendingTasks) (c : Call) → Inv w → Inv (step size_of_task w c)
unfolding step
step-Inv z w (submits r worker m lifecycle now) v = submit-Inv w z r worker m lifecycle now v
step-Inv z w (pumps S send world now valid) v = pump-Inv send w now valid world v
step-Inv z w (cancels session) v = cancel_session-Inv w session v

pub run-Inv :
    (size_of_task : ℕ) (w : WorkerPendingTasks) (cs : List Call)
    → Inv w
    → Inv (run size_of_task w cs)
unfolding run
run-Inv z w [] v = v
run-Inv z w (c ∷ cs) v = run-Inv z (step z w c) cs (step-Inv z w c v)

-- From the constructor on, with limits below 2^64 and whatever `send` and `valid` answer, the
-- statistics of every worker's queue show the number and the bytes of its business tasks, and
-- these are within the limits; the number of its lifecycle tasks is shown modulo 2^64; and the
-- worker to serve next exists.
pub run_pending-Inv :
    (size_of_task workers : ℕ) (l : Limits) (w : WorkerPendingTasks) (cs : List Call)
    → FitLimits l
    → create workers l ≡ some w
    → Inv (run size_of_task w cs)
run_pending-Inv z workers l w cs f e = run-Inv z w cs (create-Inv workers l w f e)
