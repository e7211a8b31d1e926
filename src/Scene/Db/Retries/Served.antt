-- ===== src/Scene/Db/Retries/Served.antt =====
-- Which entries a round executes, and what becomes of each
-- (sceneServer/src-cpp/db/transactionRetries.h).
use mmorpg_game_server.Common.{
  ℕ, zero, suc, ◌+◌, ◌%◌, ◌^◌, ◌≡◌, refl, sym, ap, ◌∙◌, inl, inr, true, false, none, some, List, [],
  ◌∷◌, ◌++◌, append-nil, append_assoc, arith, ltb, if◌then◌else◌, Bool-cases, Option-cases,
  some-inj, length,
}
use mmorpg_game_server.Scene.Db.Message.{Msg}
use mmorpg_game_server.Scene.Db.Retries.{
  DbTask, DbResult, Entry, round_budget, refuses, scheduled, schedule, take_due, retry_loop, tick,
}
use mmorpg_game_server.Scene.Db.Retries.Rounds.{take_due-Taken, is_later, length-snoc}

-- The first `n` entries that are due, in order.
abbrev pub first_due : ℕ → ℕ → List Entry → List Entry
first_due now zero es = []
first_due now (suc n) [] = []
first_due now (suc n) (e ∷ es) =
    if ltb now e.next_at then first_due now (suc n) es else e ∷ first_due now n es

-- The entries without these.
abbrev pub others : ℕ → ℕ → List Entry → List Entry
others now zero es = es
others now (suc n) [] = []
others now (suc n) (e ∷ es) =
    if ltb now e.next_at then e ∷ others now (suc n) es else others now n es

abbrev pred : ℕ → ℕ
pred zero = zero
pred (suc n) = n

-- Each of these entries executed once, in order, where `size` entries are kept: a request that
-- may not be tried again is completed with its result, and the others are put off.
pub serve : (ℕ → DbTask → DbResult) → ℕ → ℕ → ℕ → List Entry → List (Msg × DbResult) × List Entry
serve execute now n size [] = ([], [])
serve execute now n size (e ∷ es) =
    let attempts = (e.attempts + 1) % 2 ^ 32 in
    let result = execute (pred n) e.task in
    let more = serve execute now (pred n) size es in
    let less = serve execute now (pred n) (pred size) es in
    if refuses e.task result attempts (pred size)
    then ((e.request, result) ∷ less.0, less.1)
    else (more.0, scheduled e.request e.task attempts now ∷ more.1)

-- What a round with a budget is to do.
pub served : (ℕ → DbTask → DbResult) → ℕ → ℕ → List Entry → List (Msg × DbResult) × List Entry
unfolding serve
served execute now n es =
    let s = serve execute now n (length es) (first_due now n es) in (s.0, others now n es ++ s.1)

none_due :
    (now n : ℕ) (es : List Entry)
    → take_due now es ≡ none
    → (first_due now n es ≡ []) × (others now n es ≡ es)
unfolding take_due
none_due now zero es h = (refl, refl)
none_due now (suc n) [] h = (refl, refl)
none_due now (suc n) (e ∷ es) h = elim (Bool-cases (ltb now e.next_at)) [
  | inr c ↦ absurd (cc (rw (take_due, c) at h))
  | inl c ↦ elim (Option-cases (take_due now es)) [
    | inl t ↦ rw c ((none_due now (suc n) es t).0, ap (◌∷◌ e) (none_due now (suc n) es t).1)
    | inr (r, t) ↦ absurd (cc (rw (take_due, c, t) at h))
  ]
]

later_due :
    (now n : ℕ) (e : Entry) (es : List Entry)
    → ltb now e.next_at ≡ true
    → (first_due now n (e ∷ es) ≡ first_due now n es)
      × (others now n (e ∷ es) ≡ e ∷ others now n es)
later_due now zero e es c = (refl, refl)
later_due now (suc n) e es c = rw c (refl, refl)

-- The entry that is taken out is the first one.
one_due :
    (now n : ℕ) (es : List Entry) (d : Entry) (rest : List Entry)
    → take_due now es ≡ some (d, rest)
    → (first_due now (suc n) es ≡ d ∷ first_due now n rest)
      × (others now (suc n) es ≡ others now n rest)
unfolding take_due
one_due now n [] d rest h = absurd (cc (h))
one_due now n (e ∷ es) d rest h = elim (Bool-cases (ltb now e.next_at)) [
  | inr c ↦
      let q = some-inj (rw (take_due, c) at h) in
      rw (c, ← ap (λ p. p.0) q, ← ap (λ p. p.1) q) (refl, refl)
  | inl c ↦ elim (Option-cases (take_due now es)) [
    | inl t ↦ absurd (cc (rw (take_due, c, t) at h))
    | inr ((d', rest'), t) ↦
        let ih = one_due now n es d' rest' t in
        let q = some-inj (rw (take_due, c, t) at h) in
        let l = later_due now n e rest' c in
        rw (c, ← ap (λ p. p.0) q, ← ap (λ p. p.1) q)
          (ih.0 ∙ ap (◌∷◌ d') (sym l.0), ap (◌∷◌ e) ih.1 ∙ sym l.1)
  ]
]

-- An entry at the end that is not due changes nothing.
last_later :
    (now n : ℕ) (es : List Entry) (x : Entry)
    → ltb now x.next_at ≡ true
    → (first_due now n (es ++ (x ∷ [])) ≡ first_due now n es)
      × (others now n (es ++ (x ∷ [])) ≡ others now n es ++ (x ∷ []))
last_later now zero es x c = (refl, refl)
last_later now (suc n) [] x c = rw c (refl, refl)
last_later now (suc n) (e ∷ es) x c = elim (Bool-cases (ltb now e.next_at)) [
  | inl k ↦ rw k ((last_later now (suc n) es x c).0, ap (◌∷◌ e) (last_later now (suc n) es x c).1)
  | inr k ↦ rw k (ap (◌∷◌ e) (last_later now n es x c).0, (last_later now n es x c).1)
]

-- What is scheduled again is not due in this round.
again_later :
    (e : Entry) (result : DbResult) (attempts size now : ℕ)
    → refuses e.task result attempts size ≡ false
    → ltb now (scheduled e.request e.task attempts now).next_at ≡ true
unfolding refuses scheduled
again_later e result attempts size now h =
    is_later attempts now (ground (arith, h)) (ground (arith, h))

retry_loop-served :
    (execute : ℕ → DbTask → DbResult) (now n : ℕ) (es : List Entry)
    → retry_loop execute now n es ≡ served execute now n es
unfolding retry_loop schedule serve served
retry_loop-served execute now zero es = ap (λ l. ([], l)) (sym (append-nil es))
retry_loop-served execute now (suc n) es = elim (Option-cases (take_due now es)) [
  | inl t ↦
      rw (retry_loop, t, served, (none_due now (suc n) es t).0, (none_due now (suc n) es t).1)
        (ap (λ l. ([], l)) (sym (append-nil es)))
  | inr ((e, rest), t) ↦
      let one = one_due now n es e rest t in
      let size : length es ≡ suc (length rest) = (take_due-Taken now es e rest t).length_eq in
      elim (Bool-cases
        (refuses e.task (execute n e.task) ((e.attempts + 1) % 2 ^ 32) (length rest))) [
          | inl c ↦
              rw (retry_loop, t, schedule, served, one.0, one.1, size, serve, c)
                (rw (retry_loop-served execute now n rest, served) refl)
          | inr c ↦
              let x : Entry = scheduled e.request e.task ((e.attempts + 1) % 2 ^ 32) now in
              let put = last_later now n rest x (
                again_later e (execute n e.task) ((e.attempts + 1) % 2 ^ 32) (length rest) now c) in
              rw (retry_loop, t, schedule, served, one.0, one.1, size, serve, c)
                (rw
                  (
                    retry_loop-served execute now n (rest ++ (x ∷ [])),
                    served,
                    put.0,
                    put.1,
                    length-snoc rest x,
                  )
                  (ap (λ l. ((serve execute now n (suc (length rest)) (first_due now n rest)).0, l))
                    (append_assoc (others now n rest) (x ∷ [])
                      (serve execute now n (suc (length rest)) (first_due now n rest)).1)))
        ]
]

-- A round executes the first sixteen entries that are due, each once and in their order, and no
-- others. A request that may not be tried again is completed with the result of its execution;
-- each of the others stands at the end of the entries afterwards, tried once more and put off.
-- The entries that were not executed stay as they were, in their order, in front of these.
pub tick-served :
    (execute : ℕ → DbTask → DbResult) (now : ℕ) (es : List Entry)
    → tick execute now es ≡ served execute now round_budget es
unfolding tick
tick-served execute now es = retry_loop-served execute now round_budget es
