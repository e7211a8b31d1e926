-- ===== src/Scene/WorkerPending/Accounts.antt =====
-- The statistics of a queue against its tasks, and the limits on the tasks that wait.
use mmorpg_game_server.Common.{
  ℕ, ◌+◌, ◌%◌, ◌^◌, ◌≤◌, ◌<◌, ◌≡◌, refl, sym, ◌∙◌, ◌⊎◌, inl, inr, Bool, true, false, ◌&&◌, ◌||◌,
  not, List, [], ◌∷◌, arith, ltb, leb, ◌==◌, if◌then◌else◌, Bool-cases,
}
use mmorpg_game_server.Scene.WorkerPending.{
  Msg, Limits, DispatchResult, is_accepted, backpressure, refused, Stats, Task, Queue,
  account_remove, up, count_dropped, expire, cancel_tasks, drain,
}

-- The number of business tasks, their bytes, and the number of lifecycle tasks.
abbrev pub business_of : List Task → ℕ
business_of [] = 0
business_of (t ∷ ts) = (if t.lifecycle then 0 else 1) + business_of ts

abbrev pub bytes_of : List Task → ℕ
bytes_of [] = 0
bytes_of (t ∷ ts) = (if t.lifecycle then 0 else t.bytes) + bytes_of ts

abbrev pub lifecycle_of : List Task → ℕ
lifecycle_of [] = 0
lifecycle_of (t ∷ ts) = (if t.lifecycle then 1 else 0) + lifecycle_of ts

-- The limits are numbers of type `size_t`.
pub record FitLimits (l : Limits) : Type 0 where
  pub tasks_fit : l.max_business_tasks < 2 ^ 64
  pub bytes_fit : l.max_business_bytes < 2 ^ 64

-- The statistics show `b` business tasks of `y` bytes and `n` lifecycle tasks, within the limits.
pub record Tallies (l : Limits) (b y n tasks bytes life : ℕ) : Type 0 where
  pub tasks_right : tasks ≡ b
  pub bytes_right : bytes ≡ y
  pub life_right : life ≡ n % 2 ^ 64
  pub tasks_limit : b ≤ l.max_business_tasks
  pub bytes_limit : y ≤ l.max_business_bytes

abbrev pub Shows : Limits → ℕ → ℕ → ℕ → Stats → Type 0
Shows l b y n s = Tallies l b y n s.business_tasks s.business_bytes s.lifecycle_tasks

-- What every queue keeps.
abbrev pub Balanced : Limits → Queue → Type 0
Balanced l q = Shows l (business_of q.tasks) (bytes_of q.tasks) (lifecycle_of q.tasks) q.stats

Shows-eq :
    {l : Limits} {b c y z n m : ℕ} (s : Stats)
    → Shows l b y n s
    → b ≡ c
    → y ≡ z
    → n ≡ m
    → Shows l c z m s
Shows-eq {l} {b} {c} {y} {z} {n} {m} s h eb ey en = record {
  tasks_right = h.tasks_right ∙ eb;
  bytes_right = h.bytes_right ∙ ey;
  life_right = rw (← en) h.life_right;
  tasks_limit = omega (arith, h.tasks_limit, eb);
  bytes_limit = omega (arith, h.bytes_limit, ey);
}

account_remove-Shows :
    {l : Limits} (t : Task) (b y n : ℕ) (s : Stats)
    → FitLimits l
    → Shows l
        ((if t.lifecycle then 0 else 1) + b)
        ((if t.lifecycle then 0 else t.bytes) + y)
        ((if t.lifecycle then 1 else 0) + n)
        s
    → Shows l b y n (account_remove s t)
unfolding account_remove
account_remove-Shows t b y n s f h = elim (Bool-cases t.lifecycle) [
  | inl e ↦ rw e (record {
    tasks_right = ground (arith, e, h.tasks_right);
    bytes_right = ground (arith, e, h.bytes_right);
    life_right = ground (arith, e, h.life_right);
    tasks_limit = ground (arith, e, h.tasks_limit);
    bytes_limit = ground (arith, e, h.bytes_limit);
  })
  | inr e ↦ rw e (record {
    tasks_right = ground (arith, e, h.tasks_right, h.tasks_limit, f.tasks_fit);
    bytes_right = ground (arith, e, h.bytes_right, h.bytes_limit, f.bytes_fit);
    life_right = ground (arith, e, h.life_right);
    tasks_limit = ground (arith, e, h.tasks_limit);
    bytes_limit = ground (arith, e, h.bytes_limit);
  })
]

count_dropped-Shows :
    {l : Limits} (late : Bool) (b y n : ℕ) (s : Stats)
    → Shows l b y n s
    → Shows l b y n (count_dropped late s)
unfolding count_dropped
count_dropped-Shows true b y n s h = record {
  tasks_right = h.tasks_right;
  bytes_right = h.bytes_right;
  life_right = h.life_right;
  tasks_limit = h.tasks_limit;
  bytes_limit = h.bytes_limit;
}
count_dropped-Shows false b y n s h = record {
  tasks_right = h.tasks_right;
  bytes_right = h.bytes_right;
  life_right = h.life_right;
  tasks_limit = h.tasks_limit;
  bytes_limit = h.bytes_limit;
}

-- The numbers of a queue's head moved to what stands before the queue.
shift : (k a rest : ℕ) → k + (a + rest) ≡ (k + a) + rest
shift k a rest = omega arith

swap : (k a rest : ℕ) → k + (a + rest) ≡ a + (k + rest)
swap k a rest = omega arith

pub expire-Shows :
    {l : Limits} (now : ℕ) (valid : Msg → Bool) (ts : List Task) (b y n : ℕ) (s : Stats)
    → FitLimits l
    → Shows l (b + business_of ts) (y + bytes_of ts) (n + lifecycle_of ts) s
    → (let (left, out) = (expire now valid ts s).1 in
        Shows l (b + business_of left) (y + bytes_of left) (n + lifecycle_of left) out)
unfolding expire
expire-Shows now valid [] b y n s f h = h
expire-Shows {l} now valid (t ∷ ts) b y n s f h =
    elim (Bool-cases (not t.lifecycle && (leb t.deadline now || not (valid t.message)))) [
      | inl e ↦ rw e (
          expire-Shows now valid ts b y n _ f (
            account_remove-Shows t _ _ _ _ f (
              count_dropped-Shows (leb t.deadline now) _ _ _ s
                (Shows-eq s h (swap b _ _) (swap y _ _) (swap n _ _)))))
      | inr e ↦
          let out = (expire now valid ts s).1.1 in
          let ih =
            expire-Shows now valid ts (b + (if t.lifecycle then 0 else 1))
              (y + (if t.lifecycle then 0 else t.bytes)) (n + (if t.lifecycle then 1 else 0)) s f
              (Shows-eq s h (shift b _ _) (shift y _ _) (shift n _ _)) in
          rw e (Shows-eq out ih (sym (shift b _ _)) (sym (shift y _ _)) (sym (shift n _ _)))
    ]

-- `cancelSession` on one queue.
pub cancel_tasks-Shows :
    {l : Limits} (session : ℕ) (ts : List Task) (b y n : ℕ) (s : Stats)
    → FitLimits l
    → Shows l (b + business_of ts) (y + bytes_of ts) (n + lifecycle_of ts) s
    → (let q = cancel_tasks session ts s in
        Shows l (b + business_of q.tasks) (y + bytes_of q.tasks) (n + lifecycle_of q.tasks) q.stats)
unfolding cancel_tasks
cancel_tasks-Shows session [] b y n s f h = h
cancel_tasks-Shows {l} session (t ∷ ts) b y n s f h =
    elim (Bool-cases (not t.lifecycle && t.message.session == session)) [
      | inl e ↦ rw e (
          cancel_tasks-Shows session ts b y n _ f (
            account_remove-Shows t _ _ _ _ f (Shows-eq s h (swap b _ _) (swap y _ _) (swap n _ _))))
      | inr e ↦
          let out = (cancel_tasks session ts s).stats in
          let ih =
            cancel_tasks-Shows session ts (b + (if t.lifecycle then 0 else 1))
              (y + (if t.lifecycle then 0 else t.bytes)) (n + (if t.lifecycle then 1 else 0)) s f
              (Shows-eq s h (shift b _ _) (shift y _ _) (shift n _ _)) in
          rw e (Shows-eq out ih (sym (shift b _ _)) (sym (shift y _ _)) (sym (shift n _ _)))
    ]

pub DispatchResult-cases :
    (r : DispatchResult) → (r ≡ is_accepted) ⊎ ((r ≡ backpressure) ⊎ (r ≡ refused))
DispatchResult-cases is_accepted = inl refl
DispatchResult-cases backpressure = inr (inl refl)
DispatchResult-cases refused = inr (inr refl)

module _ {S : Type 0} (send : S → ℕ → Msg → S × DispatchResult) where
  pub drain-Balanced :
      {l : Limits} (worker : ℕ) (ts : List Task) (s : Stats) (tried total : ℕ) (world : S)
      → FitLimits l
      → Balanced l (record { tasks = ts; stats = s })
      → Balanced l (drain send l worker ts s tried total world).queue
  unfolding drain
  drain-Balanced worker [] s tried total world f h = h
  drain-Balanced {l} worker (t ∷ ts) s tried total world f h =
      elim (Bool-cases (ltb tried l.per_worker_attempts && ltb total l.global_attempts)) [
        | inr e ↦ rw e h
        | inl e ↦ elim (DispatchResult-cases (send world worker t.message).1) [
          | inl r ↦
              let counted : Balanced l (record {
                tasks = t ∷ ts;
                stats = record s { accepted_count = up s.accepted_count };
              }) =
                record {
                  tasks_right = h.tasks_right;
                  bytes_right = h.bytes_right;
                  life_right = h.life_right;
                  tasks_limit = h.tasks_limit;
                  bytes_limit = h.bytes_limit;
                } in
              rw (e, r, drain)
                (drain-Balanced worker ts _ _ _ _ f (account_remove-Shows t _ _ _ _ f counted))
          | inr (inl r) ↦ rw (e, r, drain) h
          | inr (inr r) ↦
              let counted : Balanced l (record {
                tasks = t ∷ ts;
                stats = record s { internal_errors = up s.internal_errors };
              }) =
                record {
                  tasks_right = h.tasks_right;
                  bytes_right = h.bytes_right;
                  life_right = h.life_right;
                  tasks_limit = h.tasks_limit;
                  bytes_limit = h.bytes_limit;
                } in
              elim (Bool-cases t.lifecycle) [
                | inl k ↦ rw (e, r, k, drain) (rw k at counted)
                | inr k ↦
                    let failed : Stats = record s { internal_errors = up s.internal_errors } in
                    let rest =
                      drain-Balanced worker ts (account_remove failed t) (tried + 1) (total + 1)
                        (send world worker t.message).0 f
                        (account_remove-Shows t _ _ _ failed f counted) in
                    simp (e, r, k, drain) rest
              ]
        ]
      ]

none_before : (n : ℕ) → n ≡ 0 + n
none_before n = omega arith

pub expire-Balanced :
    {l : Limits} (now : ℕ) (valid : Msg → Bool) (q : Queue)
    → FitLimits l
    → Balanced l q
    → (let (left, out) = (expire now valid q.tasks q.stats).1 in
        Balanced l (record { tasks = left; stats = out }))
expire-Balanced now valid q f h =
    Shows-eq (expire now valid q.tasks q.stats).1.1
      (expire-Shows now valid q.tasks 0 0 0 q.stats f
        (Shows-eq q.stats h (none_before _) (none_before _) (none_before _)))
      (sym (none_before _)) (sym (none_before _)) (sym (none_before _))

pub cancel_tasks-Balanced :
    {l : Limits} (session : ℕ) (q : Queue)
    → FitLimits l
    → Balanced l q
    → Balanced l (cancel_tasks session q.tasks q.stats)
cancel_tasks-Balanced session q f h =
    Shows-eq (cancel_tasks session q.tasks q.stats).stats
      (cancel_tasks-Shows session q.tasks 0 0 0 q.stats f
        (Shows-eq q.stats h (none_before _) (none_before _) (none_before _)))
      (sym (none_before _)) (sym (none_before _)) (sym (none_before _))
