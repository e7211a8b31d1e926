-- ===== src/Gateway/ReturnRoute/Laws.antt =====
-- What the table of return routes promises.
use mmorpg_game_server.Common.{
  ℕ, ◌+◌, ◌≤◌, ◌≡◌, refl, ◌∙◌, ◌≢◌, inl, inr, Bool, true, not, Option, none, some, List, [], ◌∷◌,
  arith, leb, ◌==◌, if◌then◌else◌, Bool-cases, Option-cases, length, All,
}
use mmorpg_game_server.Common.Int.{ℤ}
use mmorpg_game_server.Common.Map.{
  find, insert, keep, IsMap, find-insert, find-insert_self, find-erase, find-keep, insert-IsMap,
  erase-IsMap, keep-IsMap, length-insert, length-erase-le, length-keep-le,
}
use mmorpg_game_server.Gateway.ReturnRoute.{
  ReturnRoute, Table, add, take, get, erase_if, of_session, is_expired, erase_by_session, sweep,
  sweep_expired, size,
}

-- What every table that the gateway builds keeps, with its bound.
pub record Inv (max_size : ℕ) (t : Table) : Type 0 where
  pub is_map : IsMap t
  pub bounded : length t ≤ max_size
  pub keyed : (seq : ℕ) (r : ReturnRoute) → find seq t ≡ some r → (r.internal_seq ≡ seq) × (seq ≢ 0)

erase_if-keep : (p : ReturnRoute → Bool) (t : Table) → (erase_if p t).1 ≡ keep (λ r. not (p r)) t
unfolding erase_if
erase_if-keep p [] = refl
erase_if-keep p ((seq, r) ∷ t) = ground (arith, erase_if-keep p t)

length-erase_if :
    (p : ReturnRoute → Bool) (t : Table) → (erase_if p t).0 + length (erase_if p t).1 ≡ length t
unfolding erase_if
length-erase_if p [] = omega arith
length-erase_if p ((seq, r) ∷ t) = ground (arith, length-erase_if p t)

keep-Inv :
    (p : ReturnRoute → Bool) (max_size : ℕ) (t : Table) → Inv max_size t → Inv max_size (keep p t)
keep-Inv p max_size t v = record {
  is_map = keep-IsMap p t v.is_map;
  bounded = omega (arith, v.bounded, length-keep-le p t);
  keyed = λ seq r e. ground (arith, find-keep p seq t v.is_map, v.keyed seq r);
}

add-Inv :
    (t : Table) (r : ReturnRoute) (max_size : ℕ)
    → Inv max_size t
    → Inv max_size (add t r max_size).1
unfolding add
add-Inv t r max_size v = elim (Bool-cases (r.internal_seq == 0)) [
  | inl e ↦ rw e v
  | inr e ↦ elim (Bool-cases (leb max_size (length t))) [
    | inl f ↦ rw (e, f) v
    | inr f ↦
        rw (e, f)
          (record {
            is_map = insert-IsMap r.internal_seq r t v.is_map;
            bounded = ground (arith, length-insert r.internal_seq r t);
            keyed = λ seq x h. ground (arith, find-insert r.internal_seq seq r t, v.keyed seq x);
          })
  ]
]

take-Inv : (t : Table) (seq max_size : ℕ) → Inv max_size t → Inv max_size (take t seq).1
unfolding take
take-Inv t seq max_size v = elim (Option-cases (find seq t)) [
  | inl e ↦ rw (e, take) v
  | inr (r, e) ↦
      rw (e, take)
        (record {
          is_map = erase-IsMap seq t v.is_map;
          bounded = omega (arith, length-erase-le seq t, v.bounded);
          keyed = λ s x h. ground (arith, find-erase seq s t, v.keyed s x);
        })
]

sweep_expired-sweep :
    (t : Table) (now : ℤ) (ttl : ℕ)
    → ((sweep_expired t now ttl).1 ≡ (sweep t now ttl).1)
      × (length (sweep_expired t now ttl).0 ≡ (sweep t now ttl).0)
unfolding sweep_expired sweep
sweep_expired-sweep [] now ttl = (refl, refl)
sweep_expired-sweep ((seq, r) ∷ t) now ttl = ground (arith, sweep_expired-sweep t now ttl)

-- A call on the table. `get` and `size` change nothing.
pub data Call : Type 0 where
  adds : ReturnRoute → Call
  takes erases_session : ℕ → Call
  sweeps returns_swept : ℤ → ℕ → Call

pub step : ℕ → Table → Call → Table
step max_size t (adds r) = (add t r max_size).1
step max_size t (takes seq) = (take t seq).1
step max_size t (erases_session session) = (erase_by_session t session).1
step max_size t (sweeps now ttl) = (sweep t now ttl).1
step max_size t (returns_swept now ttl) = (sweep_expired t now ttl).1

pub run : ℕ → Table → List Call → Table
run max_size t [] = t
run max_size t (call ∷ calls) = run max_size (step max_size t call) calls

step-Inv :
    (max_size : ℕ) (t : Table) (call : Call) → Inv max_size t → Inv max_size (step max_size t call)
unfolding step erase_by_session sweep
step-Inv max_size t (adds r) v = add-Inv t r max_size v
step-Inv max_size t (takes seq) v = take-Inv t seq max_size v
step-Inv max_size t (erases_session session) v =
    rw (erase_if-keep (of_session session) t) (keep-Inv _ max_size t v)
step-Inv max_size t (sweeps now ttl) v =
    rw (erase_if-keep (is_expired now ttl) t) (keep-Inv _ max_size t v)
step-Inv max_size t (returns_swept now ttl) v =
    rw ((sweep_expired-sweep t now ttl).0, erase_if-keep (is_expired now ttl) t)
      (keep-Inv _ max_size t v)

run-Inv :
    (max_size : ℕ) (t : Table) (calls : List Call)
    → Inv max_size t
    → Inv max_size (run max_size t calls)
unfolding run
run-Inv max_size t [] v = v
run-Inv max_size t (call ∷ calls) v =
    run-Inv max_size (step max_size t call) calls (step-Inv max_size t call v)

-- After any history of calls on an empty table with one bound, the table holds at most that many
-- routes, each once, under its own nonzero internal sequence number.
pub run_empty-Inv : (max_size : ℕ) (calls : List Call) → Inv max_size (run max_size [] calls)
run_empty-Inv max_size calls =
    run-Inv max_size [] calls (record { is_map = tt; bounded = omega arith; keyed = λ seq r e. cc })

-- A route that was added is taken once: the first take returns it, a second finds nothing, and the
-- routes of other sequence numbers are as before the add.
pub take-add :
    (t : Table) (r : ReturnRoute) (max_size : ℕ)
    → (add t r max_size).0 ≡ true
    → ((take (add t r max_size).1 r.internal_seq).0 ≡ some r)
      × (get (take (add t r max_size).1 r.internal_seq).1 r.internal_seq ≡ none)
      × ((seq : ℕ)
          → seq ≢ r.internal_seq
          → get (take (add t r max_size).1 r.internal_seq).1 seq ≡ get t seq)
unfolding add take get
take-add t r max_size ok = elim (Bool-cases (r.internal_seq == 0)) [
  | inl e ↦ cc (rw e at ok)
  | inr e ↦ elim (Bool-cases (leb max_size (length t))) [
    | inl f ↦ cc (rw (e, f) at ok)
    | inr f ↦
        rw (e, f, find-insert_self r.internal_seq r t, take)
          (
            refl,
            ground (arith, find-erase r.internal_seq r.internal_seq (insert r.internal_seq r t)),
            λ seq ne. ground (
              arith,
              find-erase r.internal_seq seq (insert r.internal_seq r t),
              find-insert r.internal_seq seq r t,
            ),
          )
  ]
]

-- What is left of a route that is erased if it passes a test.
abbrev pub unless : (ReturnRoute → Bool) → Option ReturnRoute → Option ReturnRoute
unless p none = none
unless p (some r) = if p r then none else some r

unless_lem :
    (p : ReturnRoute → Bool) (o : Option ReturnRoute)
    → elim o [ none ↦ none | some r ↦ if not (p r) then some r else none ] ≡ unless p o
unless_lem p none = refl
unless_lem p (some r) = elim (Bool-cases (p r)) [ inl e ↦ rw e | inr e ↦ rw e ]

-- In a table that holds each number once, erasing by session counts what it erases; it leaves no
-- route of that session, and every other route stays as it was.
pub erase_by_session_lem :
    (t : Table) (session : ℕ)
    → IsMap t
    → ((erase_by_session t session).0 + size (erase_by_session t session).1 ≡ size t)
      × ((seq : ℕ)
          → get (erase_by_session t session).1 seq ≡ unless (of_session session) (get t seq))
unfolding erase_by_session get size
erase_by_session_lem t session h = (
  length-erase_if (of_session session) t,
  λ seq.
      rw (erase_if-keep (of_session session) t, find-keep (λ r. not (of_session session r)) seq t h)
        (unless_lem (of_session session) (find seq t)),
)

sweep_expired-All :
    (t : Table) (now : ℤ) (ttl : ℕ)
    → All (λ r. is_expired now ttl r ≡ true) (sweep_expired t now ttl).0
unfolding sweep_expired
sweep_expired-All [] now ttl = tt
sweep_expired-All ((seq, r) ∷ t) now ttl = elim (Bool-cases (is_expired now ttl r)) [
  | inl e ↦ rw e (e, sweep_expired-All t now ttl)
  | inr e ↦ rw e (sweep_expired-All t now ttl)
]

-- In a table that holds each number once, `SweepExpired` returns expired routes only, as many as
-- leave the table; the table keeps exactly the routes that are not expired, as after `Sweep`.
pub sweep_expired_lem :
    (t : Table) (now : ℤ) (ttl : ℕ)
    → IsMap t
    → All (λ r. is_expired now ttl r ≡ true) (sweep_expired t now ttl).0
      × (length (sweep_expired t now ttl).0 + size (sweep_expired t now ttl).1 ≡ size t)
      × ((sweep_expired t now ttl).1 ≡ (sweep t now ttl).1)
      × ((seq : ℕ) → get (sweep_expired t now ttl).1 seq ≡ unless (is_expired now ttl) (get t seq))
unfolding sweep get size
sweep_expired_lem t now ttl h =
    let s = sweep_expired-sweep t now ttl in
    let same : (sweep_expired t now ttl).1 ≡ keep (λ r. not (is_expired now ttl r)) t =
      s.0 ∙ erase_if-keep (is_expired now ttl) t in
    (
      sweep_expired-All t now ttl,
      rw (s.0, s.1) (length-erase_if (is_expired now ttl) t),
      s.0,
      λ seq.
          rw (same, find-keep (λ r. not (is_expired now ttl r)) seq t h)
            (unless_lem (is_expired now ttl) (find seq t)),
    )
