-- ===== src/Scene/Db/Retries.antt =====
-- Transactions that are tried again (sceneServer/src-cpp/db/transactionRetries.h, and the types it
-- reads of dbValue.h). Executing a transaction is an argument: the result of each execution of a
-- round, by its number in the round and its task.
pub mod Rounds
pub mod Served
mod Tests
use mmorpg_game_server.Common.{
  ℕ, zero, suc, ◌+◌, ◌-◌, ◌*◌, ◌/◌, ◌%◌, ◌^◌, ◌≤◌, ◌<◌, min, ◌≡◌, refl, sym, ap, ◌∙◌, ◌≢◌, ◌⊎◌, inl,
  inr, ◌↔◌, Bool, true, false, ◌&&◌, ◌||◌, not, Option, none, some, List, [], ◌∷◌, ◌++◌, map,
  append-nil, append_assoc, arith, ltb, leb, ◌==◌, if◌then◌else◌, Bool-cases, Option-cases, ==-refl,
  ltb→lt, lt→ltb, le→not_ltb, not_ltb→le, ==→eq, length, get_or, take, drop, replicate, retain,
  length-append, length-take, length-drop, length-replicate, take_all, drop_all, take-length-append,
  drop-length-append, drop-drop, drop-take, take-take, take-append-drop, take-append_le,
  drop-append_le, length-retain-le, All, All-append,
}
use mmorpg_game_server.Scene.Db.Message.{Msg}

pub data ResultClass : Type 0 where
  success failure retryable outcome_unknown identity_conflict superseded business_rejected
        version_conflict :
      ResultClass

-- What is read of a task and of a result; `encoded` stands for the other members.
pub record DbTask : Type 0 where
  pub kind : ℕ
  pub encoded : List ℕ

pub record DbResult : Type 0 where
  pub classification : ResultClass
  pub encoded : List ℕ

pub record Entry : Type 0 where
  pub request : Msg
  pub task : DbTask
  pub attempts : ℕ
  pub next_at : ℕ

abbrev pub capacity : ℕ
capacity = 1024

abbrev pub max_attempts : ℕ
max_attempts = 3

abbrev pub round_budget : ℕ
round_budget = 16

is_retryable : ResultClass → Bool
is_retryable retryable = true
is_retryable _ = false

-- The tests of `schedule`, on the number of entries.
pub refuses : DbTask → DbResult → ℕ → ℕ → Bool
unfolding is_retryable
refuses task result attempts size =
    (not (task.kind == 4) && not (task.kind == 5))
    || (not (is_retryable result.classification)
        || (attempts == 0 || (leb max_attempts attempts || leb capacity size)))

pub scheduled : Msg → DbTask → ℕ → ℕ → Entry
scheduled request task attempts now = record {
  request = request;
  task = task;
  attempts = attempts;
  next_at = now + 100 * 2 ^ (attempts - 1);
}

pub schedule : List Entry → Msg → DbTask → DbResult → ℕ → ℕ → Bool × List Entry
unfolding refuses scheduled
schedule entries request task result attempts now =
    if refuses task result attempts (length entries)
    then (false, entries)
    else (true, entries ++ (scheduled request task attempts now ∷ []))

-- The first entry that is due, and the entries without it.
pub take_due : ℕ → List Entry → Option (Entry × List Entry)
take_due now [] = none
take_due now (e ∷ es) =
    if ltb now e.next_at
    then elim (take_due now es) [ none ↦ none | some (d, rest) ↦ some (d, e ∷ rest) ]
    else some (e, es)

-- The loop of `tick` with a budget, which starts over behind every execution: what is completed,
-- in order, and the entries that are left.
pub retry_loop : (ℕ → DbTask → DbResult) → ℕ → ℕ → List Entry → List (Msg × DbResult) × List Entry
unfolding take_due schedule
retry_loop execute now zero entries = ([], entries)
retry_loop execute now (suc budget) entries = elim (take_due now entries) [
  | none ↦ ([], entries)
  | some (entry, rest) ↦
      let result = execute budget entry.task in
      let again =
        schedule rest entry.request entry.task result ((entry.attempts + 1) % 2 ^ 32) now in
      let next = retry_loop execute now budget again.1 in
      if again.0 then next else ((entry.request, result) ∷ next.0, next.1)
]

pub tick : (ℕ → DbTask → DbResult) → ℕ → List Entry → List (Msg × DbResult) × List Entry
unfolding retry_loop
tick execute now entries = retry_loop execute now round_budget entries
