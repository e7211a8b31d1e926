-- ===== src/Scene/Db/Ledger.antt =====
-- The results a database channel keeps until they are acknowledged
-- (sceneServer/src-cpp/db/taskDelivery.h and taskDelivery.cc).
pub mod Step
pub mod Entries
pub mod Held
mod Tests
use mmorpg_game_server.Common.{
  ℕ, zero, suc, ◌+◌, ◌-◌, ◌*◌, ◌/◌, ◌%◌, ◌^◌, ◌≤◌, ◌<◌, min, ◌≡◌, refl, sym, ap, ◌∙◌, ◌≢◌, ◌⊎◌, inl,
  inr, ◌↔◌, Bool, true, false, ◌&&◌, ◌||◌, not, Option, none, some, List, [], ◌∷◌, ◌++◌, map,
  append-nil, append_assoc, arith, ltb, leb, ◌==◌, if◌then◌else◌, Bool-cases, Option-cases, ==-refl,
  ltb→lt, lt→ltb, le→not_ltb, not_ltb→le, ==→eq, length, get_or, take, drop, replicate, retain,
  length-append, length-take, length-drop, length-replicate, take_all, drop_all, take-length-append,
  drop-length-append, drop-drop, drop-take, take-take, take-append-drop, take-append_le,
  drop-append_le, length-retain-le, All, All-append,
}
use mmorpg_game_server.Common.Map.{Map, find, insert, erase, has, find-insert, find-insert_self}
use mmorpg_game_server.Scene.Db.PendingTasks.{Sender}
use mmorpg_game_server.Scene.Db.Message.{
  Msg, is_accepted, same, control_mysql, control_redis, task_mysql, task_redis,
}

pub data Admission : Type 0 where
  new duplicate conflict : Admission

pub record Entry : Type 0 where
  pub request : Msg
  pub result : Option Msg
  pub ready : Bool
  pub delivered : Bool
  pub acknowledged : Bool
  pub next_send_at : ℕ

pub record DbResultLedger : Type 0 where
  pub capacity : ℕ
  pub entries : Map Entry
  pub legacy : List Msg

abbrev pub create : ℕ → DbResultLedger
create capacity = record { capacity = capacity; entries = []; legacy = [] }

-- The entries without the first acknowledged one.
pub drop_acknowledged : Map Entry → Option (Map Entry)
drop_acknowledged [] = none
drop_acknowledged ((id, entry) ∷ m) =
    if entry.acknowledged
    then some m
    else elim (drop_acknowledged m) [ none ↦ none | some rest ↦ some ((id, entry) ∷ rest) ]

pub has_capacity : DbResultLedger → Bool × DbResultLedger
unfolding drop_acknowledged
has_capacity l =
    if ltb (length l.entries + length l.legacy) l.capacity
    then (true, l)
    else elim (drop_acknowledged l.entries) [
      | none ↦ (false, l)
      | some rest ↦ (true, record l { entries = rest })
    ]

pub fresh_entry : Msg → Entry
fresh_entry request = record {
  request = request;
  result = none;
  ready = false;
  delivered = false;
  acknowledged = false;
  next_send_at = 0;
}

pub accept : DbResultLedger → Msg → Admission × DbResultLedger
unfolding fresh_entry
accept l request =
    if request.head.task_id == 0
    then (Admission.new, l)
    else elim (find request.head.task_id l.entries) [
      | none ↦ (
        Admission.new,
        record l { entries = insert request.head.task_id (fresh_entry request) l.entries },
      )
      | some entry ↦
          if not (same entry.request request)
          then (Admission.conflict, l)
          else if entry.ready
          then (
            Admission.duplicate,
            record l {
              entries =
                  insert request.head.task_id
                    (record entry { delivered = false; next_send_at = 0; acknowledged = false })
                    l.entries;
            },
          )
          else (Admission.duplicate, l)
    ]

pub queue_notice : DbResultLedger → Msg → Bool × DbResultLedger
queue_notice l notice =
    if leb l.capacity (length l.entries + length l.legacy)
    then (false, l)
    else (true, record l { legacy = l.legacy ++ (notice ∷ []) })

-- `entries_.at` throws where there is no entry.
pub finish : DbResultLedger → Msg → Msg → Option DbResultLedger
finish l request result =
    if request.head.task_id == 0
    then some (record l { legacy = l.legacy ++ (result ∷ []) })
    else elim (find request.head.task_id l.entries) [
      | none ↦ none
      | some entry ↦ some (record l {
        entries =
            insert request.head.task_id
              (record entry { result = some result; ready = true; delivered = false }) l.entries;
      })
    ]

-- The request that a control message carries.
pub fixed_request : Msg → Msg
fixed_request message = record message {
  head = record message.head {
    msg_type = if message.head.msg_type == control_redis then task_redis else task_mysql;
    db_control = 0;
  };
}

pub handle_control : DbResultLedger → Msg → Bool × DbResultLedger
unfolding fixed_request
handle_control l message =
    if not (message.head.msg_type == control_mysql) && not (message.head.msg_type == control_redis)
    then (false, l)
    else elim (find message.head.task_id l.entries) [
      | none ↦ (false, l)
      | some entry ↦
          if not (same entry.request (fixed_request message))
          then (false, l)
          else if message.head.db_control == 1 && entry.ready
          then (
            true,
            record l {
              entries =
                  insert message.head.task_id (record entry { acknowledged = true }) l.entries;
            },
          )
          else if message.head.db_control == 2
          then (
            true,
            record l {
              entries =
                  insert message.head.task_id
                    (record entry { next_send_at = 0; delivered = false; acknowledged = false })
                    l.entries;
            },
          )
          else (false, l)
    ]

-- 0 for no record, 1 for a task in work, 2 for a finished one.
pub status : DbResultLedger → ℕ → ℕ
status l id = elim (find id l.entries) [ none ↦ 0 | some entry ↦ if entry.ready then 2 else 1 ]

-- One entry in `flush`, on the messages that the call has sent so far, the last one first.
pub deliver : Sender → ℕ → Entry → List Msg → Entry × List Msg
deliver send now entry sent = elim entry.result [
  | none ↦ (entry, sent)
  | some result ↦
      if entry.ready && (not entry.acknowledged && leb entry.next_send_at now)
      then (
        record entry {
          delivered = is_accepted (send sent result);
          next_send_at = now + (if is_accepted (send sent result) then 1000 else 100);
        },
        result ∷ sent,
      )
      else (entry, sent)
]

pub deliver_all : Sender → ℕ → Map Entry → List Msg → Map Entry × List Msg
unfolding deliver
deliver_all send now [] sent = ([], sent)
deliver_all send now ((id, entry) ∷ m) sent =
    let next = deliver send now entry sent in
    let rest = deliver_all send now m next.1 in ((id, next.0) ∷ rest.0, rest.1)

-- The loop over the old messages: those that are taken go.
pub deliver_legacy : Sender → List Msg → List Msg → List Msg
deliver_legacy send [] sent = []
deliver_legacy send (m ∷ ms) sent =
    let rest = deliver_legacy send ms (m ∷ sent) in
    if is_accepted (send sent m) then rest else m ∷ rest

pub flush : DbResultLedger → Sender → ℕ → DbResultLedger
unfolding deliver_all deliver_legacy
flush l send now = record l {
  entries = (deliver_all send now l.entries []).0;
  legacy = deliver_legacy send l.legacy (deliver_all send now l.entries []).1;
}
