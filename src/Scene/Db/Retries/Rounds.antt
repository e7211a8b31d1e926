-- ===== src/Scene/Db/Retries/Rounds.antt =====
-- What a round does (sceneServer/src-cpp/db/transactionRetries.h).
use mmorpg_game_server.Common.{
  ℕ, zero, suc, ◌+◌, ◌-◌, ◌*◌, ◌%◌, ◌^◌, ◌≤◌, ◌<◌, min, ◌≡◌, refl, ap, inl, inr, true, false, none,
  some, List, [], ◌∷◌, ◌++◌, arith, ltb, if◌then◌else◌, Bool-cases, Option-cases, some-inj, length,
  All, All-append,
}
use mmorpg_game_server.Scene.Db.Message.{Msg}
use mmorpg_game_server.Scene.Db.Retries.{
  DbTask, DbResult, Entry, capacity, max_attempts, round_budget, refuses, scheduled, schedule,
  take_due, retry_loop, tick,
}

-- How many entries are due.
abbrev pub due : ℕ → List Entry → ℕ
due now [] = 0
due now (e ∷ es) = if ltb now e.next_at then due now es else suc (due now es)

-- How often the entries can still be executed.
abbrev pub work : List Entry → ℕ
work [] = 0
work (e ∷ es) = (max_attempts - e.attempts) + work es

-- Every entry has been tried, and may be tried again.
abbrev pub IsRetry : Entry → Type 0
IsRetry e = (0 < e.attempts) × (e.attempts < max_attempts)

take_due-none : (now : ℕ) (es : List Entry) → take_due now es ≡ none → due now es ≡ 0
unfolding take_due
take_due-none now [] h = refl
take_due-none now (e ∷ es) h = elim (Bool-cases (ltb now e.next_at)) [
  | inr c ↦ absurd (cc (rw (take_due, c) at h))
  | inl c ↦ elim (Option-cases (take_due now es)) [
    | inl t ↦ rw c (take_due-none now es t)
    | inr (r, t) ↦ absurd (cc (rw (take_due, c, t) at h))
  ]
]

-- What is taken out was due, and nothing else changes.
pub record Taken (now : ℕ) (es : List Entry) (d : Entry) (rest : List Entry) : Type 0 where
  pub due_eq : due now es ≡ suc (due now rest)
  pub length_eq : length es ≡ suc (length rest)
  pub work_eq : work es ≡ (max_attempts - d.attempts) + work rest
  pub retry : All IsRetry es → IsRetry d × All IsRetry rest

pub take_due-Taken :
    (now : ℕ) (es : List Entry) (d : Entry) (rest : List Entry)
    → take_due now es ≡ some (d, rest)
    → Taken now es d rest
unfolding take_due
take_due-Taken now [] d rest h = absurd (cc (h))
take_due-Taken now (e ∷ es) d rest h = elim (Bool-cases (ltb now e.next_at)) [
  | inr c ↦
      let q = some-inj (rw (take_due, c) at h) in
      rw (← ap (λ p. p.0) q, ← ap (λ p. p.1) q)
        (record { due_eq = rw c refl; length_eq = refl; work_eq = refl; retry = λ a. a })
  | inl c ↦ elim (Option-cases (take_due now es)) [
    | inl t ↦ absurd (cc (rw (take_due, c, t) at h))
    | inr ((d', rest'), t) ↦
        let ih = take_due-Taken now es d' rest' t in
        let q = some-inj (rw (take_due, c, t) at h) in
        rw (← ap (λ p. p.0) q, ← ap (λ p. p.1) q)
          (record {
            due_eq = rw c ih.due_eq;
            length_eq = ap suc ih.length_eq;
            work_eq = (let w = ih.work_eq in omega arith);
            retry = λ a. ((ih.retry a.1).0, (a.0, (ih.retry a.1).1));
          })
  ]
]

due-append :
    (now : ℕ) (es : List Entry) (e : Entry)
    → ltb now e.next_at ≡ true
    → due now (es ++ (e ∷ [])) ≡ due now es
due-append now [] e h = rw h refl
due-append now (x ∷ es) e h = elim (Bool-cases (ltb now x.next_at)) [
  | inl c ↦ rw c (due-append now es e h)
  | inr c ↦ rw c (ap suc (due-append now es e h))
]

work-append :
    (es : List Entry) (e : Entry) → work (es ++ (e ∷ [])) ≡ (max_attempts - e.attempts) + work es
work-append [] e = omega arith
work-append (x ∷ es) e = omega (arith, work-append es e)

pub length-snoc : (es : List Entry) (e : Entry) → length (es ++ (e ∷ [])) ≡ suc (length es)
length-snoc [] e = refl
length-snoc (x ∷ es) e = ap suc (length-snoc es e)

-- An entry that is scheduled again has been tried twice.
second_try :
    (e : Entry) (result : DbResult) (size : ℕ)
    → IsRetry e
    → refuses e.task result ((e.attempts + 1) % 2 ^ 32) size ≡ false
    → ((e.attempts + 1) % 2 ^ 32) ≡ 2
unfolding refuses
second_try e result size (low, high) h = ground (arith, low, high, h)

-- What a round with a budget does to well-formed entries.
pub record Round (budget now : ℕ) (es : List Entry) (out : List (Msg × DbResult) × List Entry)
    : Type 0 where
  pub kept : length out.1 + length out.0 ≡ length es
  pub retries : All IsRetry out.1
  pub due_eq : due now out.1 ≡ due now es - budget
  pub work_le : work out.1 + min budget (due now es) ≤ work es

again-Round :
    (execute : ℕ → DbTask → DbResult) (now budget : ℕ) (es : List Entry) (e : Entry)
    (rest : List Entry) (x : Entry)
    → Taken now es e rest
    → x.attempts ≡ 2
    → e.attempts < 2
    → ltb now x.next_at ≡ true
    → Round budget now (rest ++ (x ∷ [])) (retry_loop execute now budget (rest ++ (x ∷ [])))
    → Round (suc budget) now es (retry_loop execute now budget (rest ++ (x ∷ [])))
again-Round execute now budget es e rest x t a l n r =
    let later : due now (rest ++ (x ∷ [])) ≡ due now rest = due-append now rest x n in
    let less = work-append rest x in
    let long = length-snoc rest x in
    record {
      kept = (let k = r.kept in let j = t.length_eq in omega arith);
      retries = r.retries;
      due_eq = (let d = r.due_eq in let k = t.due_eq in omega arith);
      work_le = (let w = r.work_le in let k = t.due_eq in let j = t.work_eq in omega arith);
    }

done-Round :
    (now budget : ℕ) (es : List Entry) (e : Entry) (rest : List Entry)
    (out : List (Msg × DbResult) × List Entry) (c : Msg × DbResult)
    → Taken now es e rest
    → e.attempts < max_attempts
    → Round budget now rest out
    → Round (suc budget) now es (c ∷ out.0, out.1)
done-Round now budget es e rest out c t a r = record {
  kept = (let k = r.kept in let j = t.length_eq in omega arith);
  retries = r.retries;
  due_eq = (let d = r.due_eq in let k = t.due_eq in omega arith);
  work_le = (let w = r.work_le in let k = t.due_eq in let j = t.work_eq in omega arith);
}

retry_loop-Round :
    (execute : ℕ → DbTask → DbResult) (now budget : ℕ) (es : List Entry)
    → All IsRetry es
    → Round budget now es (retry_loop execute now budget es)
unfolding retry_loop schedule scheduled
retry_loop-Round execute now zero es a = record {
  kept = omega arith;
  retries = a;
  due_eq = omega arith;
  work_le = omega arith;
}
retry_loop-Round execute now (suc budget) es a = elim (Option-cases (take_due now es)) [
  | inl t ↦
      rw (retry_loop, t)
        (record {
          kept = omega arith;
          retries = a;
          due_eq = omega (arith, take_due-none now es t);
          work_le = omega (arith, take_due-none now es t);
        })
  | inr ((e, rest), t) ↦
      let taken = take_due-Taken now es e rest t in
      let split = taken.retry a in
      elim (Bool-cases
        (refuses e.task (execute budget e.task) ((e.attempts + 1) % 2 ^ 32) (length rest))) [
          | inl c ↦
              rw (retry_loop, t, schedule, c)
                (done-Round now budget es e rest _ (e.request, execute budget e.task) taken
                  split.0.1 (retry_loop-Round execute now budget rest split.1))
          | inr c ↦
              let two : (e.attempts + 1) % 2 ^ 32 ≡ 2 =
                second_try e (execute budget e.task) (length rest) split.0 c in
              let x : Entry = scheduled e.request e.task ((e.attempts + 1) % 2 ^ 32) now in
              rw (retry_loop, t, schedule, c)
                (again-Round execute now budget es e rest x taken two
                  (let l = split.0.1 in omega (arith, two)) (rw two (ground arith))
                  (retry_loop-Round execute now budget (rest ++ (x ∷ [])) (
                    All-append IsRetry rest (x ∷ []) split.1
                      ((rw two (omega arith), rw two (omega arith)), tt))))
        ]
]

-- A round loses no request: each one is completed or is still there. It executes the first
-- sixteen entries that are due and no entry twice: as many fewer are due afterwards, and the
-- number of executions that the entries may still take falls by as many at least. Every entry
-- left has been tried once or twice. So has every entry before the round, by hypothesis.
pub tick-Round :
    (execute : ℕ → DbTask → DbResult) (now : ℕ) (es : List Entry)
    → All IsRetry es
    → (length (tick execute now es).1 + length (tick execute now es).0 ≡ length es)
      × All IsRetry (tick execute now es).1
      × (due now (tick execute now es).1 ≡ due now es - round_budget)
      × (work (tick execute now es).1 + min round_budget (due now es) ≤ work es)
unfolding tick
tick-Round execute now es a =
    let r = retry_loop-Round execute now round_budget es a in
    (r.kept, r.retries, r.due_eq, r.work_le)

pub is_later : (a now : ℕ) → 0 < a → a < max_attempts → ltb now (now + 100 * 2 ^ (a - 1)) ≡ true
is_later zero now l h = absurd (omega arith)
is_later (suc zero) now l h = ground arith
is_later (suc (suc zero)) now l h = ground arith
is_later (suc (suc (suc a))) now l h = absurd (omega arith)

-- A request is scheduled only as a transaction whose result may be tried again, after its first
-- or second execution and below the capacity; the entries then are as many as the capacity at
-- most, with the request last, at a later time.
pub schedule-accepted :
    (es : List Entry) (request : Msg) (task : DbTask) (result : DbResult) (attempts now : ℕ)
    → (schedule es request task result attempts now).0 ≡ true
    → (0 < attempts)
      × (attempts < max_attempts)
      × (length (schedule es request task result attempts now).1 ≤ capacity)
      × (due now (schedule es request task result attempts now).1 ≡ due now es)
unfolding schedule refuses scheduled
schedule-accepted es request task result attempts now h =
    elim (Bool-cases (refuses task result attempts (length es))) [
      | inl c ↦ absurd (cc (rw (schedule, c) at h))
      | inr c ↦
          let x : Entry = scheduled request task attempts now in
          let low : 0 < attempts = ground (arith, c) in
          let high : attempts < max_attempts = ground (arith, c) in
          let room : length es < capacity = ground (arith, c) in
          (
            low,
            high,
            rw (schedule, c) (omega (arith, length-snoc es x, room)),
            rw (schedule, c) (due-append now es x (is_later attempts now low high)),
          )
    ]
