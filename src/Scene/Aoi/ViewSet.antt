-- ===== src/Scene/Aoi/ViewSet.antt =====
-- What each observer's client has been sent (sceneServer/src-cpp/service/aoi/aoiViewSet.h and
-- aoiViewSet.cc). Entities are numbers; a kind is the number of its enumerator.
pub mod Snapshot
pub mod Step
pub mod Invariant
pub mod Steps
pub mod Reachable
pub mod Completed
mod Tests
pub mod Progress
use mmorpg_game_server.Common.{
  ℕ, zero, suc, ◌+◌, ◌-◌, ◌*◌, ◌/◌, ◌%◌, ◌^◌, ◌≤◌, ◌<◌, min, ◌≡◌, refl, sym, ap, ◌∙◌, ◌≢◌, ◌⊎◌, inl,
  inr, ◌↔◌, Bool, true, false, ◌&&◌, ◌||◌, not, Option, none, some, List, [], ◌∷◌, ◌++◌, map,
  append-nil, append_assoc, arith, ltb, leb, ◌==◌, if◌then◌else◌, Bool-cases, Option-cases, ==-refl,
  ltb→lt, lt→ltb, le→not_ltb, not_ltb→le, ==→eq, length, get_or, take, drop, replicate, retain,
  length-append, length-take, length-drop, length-replicate, take_all, drop_all, take-length-append,
  drop-length-append, drop-drop, drop-take, take-take, take-append-drop, take-append_le,
  drop-append_le, length-retain-le, All, All-append,
}
use mmorpg_game_server.Common.Int.{ℤ}
use mmorpg_game_server.Common.Map.{Map, find, insert, erase, has}

pub record SentEntityState : Type 0 where
  pub kind : ℕ
  pub business_id : ℕ
  pub entity_generation : ℕ
  pub spatial_version : ℕ
  pub x : ℤ
  pub y : ℤ
  pub dir : ℤ

abbrev pub ViewBaseline : Type 0
ViewBaseline = Map SentEntityState

pub record ObserverSnapshot : Type 0 where
  pub committed_state : ViewBaseline
  pub pendings : Map (Unit {0})
  pub client_view_epoch : ℕ
  pub next_view_seq : ℕ
  pub need_resync : Bool
  pub resync_revision : ℕ

pub record ViewSendToken : Type 0 where
  pub observer_id : ℕ
  pub client_view_epoch : ℕ
  pub next_view_seq : ℕ

pub data AoiMsgKind : Type 0 where
  entry move leave invalid : AoiMsgKind

pub record AcceptedPush : Type 0 where
  pub kind : AoiMsgKind
  pub target_id : ℕ
  pub state : SentEntityState

pub record ViewSnapshotToken : Type 0 where
  pub observer_id : ℕ
  pub client_view_epoch : ℕ
  pub view_seq : ℕ
  pub resync_revision : ℕ
  pub snapshot_id : ℕ
  pub part_count : ℕ

pub record SnapshotTask : Type 0 where
  pub token : ViewSnapshotToken
  pub baseline : ViewBaseline
  pub accepted_parts : List Bool
  pub accepted_count : ℕ

pub record AoiViewSet : Type 0 where
  pub views : Map ObserverSnapshot
  pub snapshot_tasks : Map SnapshotTask
  pub next_snapshot_id : ℕ

abbrev pub max_u64 : ℕ
max_u64 = 2 ^ 64 - 1

abbrev pub max_u32 : ℕ
max_u32 = 2 ^ 32 - 1

-- `++` on 64 and on 32 bits.
abbrev pub inc64 : ℕ → ℕ
inc64 n = (n + 1) % 2 ^ 64

abbrev pub inc32 : ℕ → ℕ
inc32 n = (n + 1) % 2 ^ 32

abbrev pub is_nil {ℓ} : {A : Type ℓ} → List A → Bool
is_nil [] = true
is_nil (x ∷ xs) = false

abbrev pub empty_views : AoiViewSet
empty_views = record { views = []; snapshot_tasks = []; next_snapshot_id = 1 }

-- `kPlayer`, `kMonster`, `kNpc` and `kDrop`.
abbrev pub valid_kind : ℕ → Bool
valid_kind k = leb 1 k && leb k 4

-- An observer at the start of an epoch of its client.
abbrev pub fresh : ℕ → ObserverSnapshot
fresh epoch = record {
  committed_state = [];
  pendings = [];
  client_view_epoch = epoch;
  next_view_seq = 1;
  need_resync = true;
  resync_revision = 0;
}

-- The view of an observer overwritten.
abbrev pub with_observer : AoiViewSet → ℕ → ObserverSnapshot → AoiViewSet
with_observer v observer s = record v { views = insert observer s v.views }

-- The observer's view replaced by a fresh one; its snapshot task is dropped.
pub restart : AoiViewSet → ℕ → ℕ → AoiViewSet
restart v observer epoch = record v {
  views = insert observer (fresh epoch) v.views;
  snapshot_tasks = erase observer v.snapshot_tasks;
}

pub registry_observer : AoiViewSet → ℕ → ℕ → Bool × AoiViewSet
unfolding restart
registry_observer v observer epoch = elim (find observer v.views) [
  | none ↦ (true, restart v observer epoch)
  | some s ↦ if leb epoch s.client_view_epoch then (false, v) else (true, restart v observer epoch)
]

pub reset_observer : AoiViewSet → ℕ → ℕ → ℕ → Bool × AoiViewSet
unfolding restart
reset_observer v observer old_epoch new_epoch = elim (find observer v.views) [
  | none ↦ (false, v)
  | some s ↦
      if not (s.client_view_epoch == old_epoch) || leb new_epoch s.client_view_epoch
      then (false, v)
      else (true, restart v observer new_epoch)
]

pub remove_observer : AoiViewSet → ℕ → ℕ → Bool × AoiViewSet
remove_observer v observer epoch = elim (find observer v.views) [
  | none ↦ (false, v)
  | some s ↦ if not (s.client_view_epoch == epoch) then (false, v) else (
    true,
    record v { views = erase observer v.views; snapshot_tasks = erase observer v.snapshot_tasks },
  )
]

unfoldable pub prepare_send : AoiViewSet → ℕ → Option ViewSendToken
prepare_send v observer = elim (find observer v.views) [
  | none ↦ none
  | some s ↦
      if has observer v.snapshot_tasks
      then none
      else some (record {
        observer_id = observer;
        client_view_epoch = s.client_view_epoch;
        next_view_seq = s.next_view_seq;
      })
]

-- `findSentState`
pub find_sent_state : AoiViewSet → ℕ → ℕ → Option SentEntityState
find_sent_state v observer target = elim (find observer v.views) [
  | none ↦ none
  | some s ↦ find target s.committed_state
]

-- The rules of `processEntry`, `processMove` and `processLeave` on the state that was sent before.
unfoldable pub refuses_entry : SentEntityState → SentEntityState → Bool
refuses_entry new old =
    not (new.kind == old.kind)
    || (not (new.business_id == old.business_id)
        || (ltb new.entity_generation old.entity_generation
            || (new.entity_generation == old.entity_generation
                && ltb new.spatial_version old.spatial_version)))

unfoldable pub refuses_move : SentEntityState → SentEntityState → Bool
refuses_move new old =
    not (new.kind == old.kind)
    || (not (new.business_id == old.business_id)
        || (not (new.entity_generation == old.entity_generation)
            || ltb new.spatial_version old.spatial_version))

unfoldable pub refuses_leave : SentEntityState → SentEntityState → Bool
refuses_leave new old =
    not (new.entity_generation == old.entity_generation)
    || (not (new.kind == old.kind) || not (new.business_id == old.business_id))

-- One push on a baseline.
unfoldable pub process : AcceptedPush → ViewBaseline → Option ViewBaseline
unfolding refuses_entry refuses_move refuses_leave
process push m = elim push.kind [
  | entry ↦ elim (find push.target_id m) [
    | none ↦ some (insert push.target_id push.state m)
    | some old ↦
        if refuses_entry push.state old then none else some (insert push.target_id push.state m)
  ]
  | move ↦ elim (find push.target_id m) [
    | none ↦ none
    | some old ↦
        if refuses_move push.state old then none else some (insert push.target_id push.state m)
  ]
  | leave ↦ elim (find push.target_id m) [
    | none ↦ some m
    | some old ↦
        if ltb push.state.entity_generation old.entity_generation
        then some m
        else if refuses_leave push.state old
        then none
        else some (erase push.target_id m)
  ]
  | invalid ↦ none
]

-- The loop of `commitAccepted`, on the copies of the baseline and of the pending targets.
unfoldable pub process_all :
    List AcceptedPush → ViewBaseline → Map (Unit {0}) → Option (ViewBaseline × Map (Unit {0}))
unfolding process
process_all [] m pendings = some (m, pendings)
process_all (push ∷ pushes) m pendings =
    if push.target_id == 0 || not (valid_kind push.state.kind)
    then none
    else elim (process push m) [
      | none ↦ none
      | some m' ↦ process_all pushes m' (erase push.target_id pendings)
    ]

-- The token is the observer's present one.
unfoldable pub is_current : ViewSendToken → ℕ → ObserverSnapshot → Bool
is_current token observer s =
    token.observer_id == observer
    && (token.client_view_epoch == s.client_view_epoch && token.next_view_seq == s.next_view_seq)

unfoldable pub commit_accepted :
    AoiViewSet → ℕ → ViewSendToken → List AcceptedPush → Bool × AoiViewSet
unfolding is_current process_all
commit_accepted v observer token items =
    if has observer v.snapshot_tasks then (false, v) else elim (find observer v.views) [
      | none ↦ (false, v)
      | some s ↦
          if not (is_current token observer s)
          then (false, v)
          else if is_nil items
          then (true, v)
          else if s.next_view_seq == max_u64
          then (false, v)
          else elim (process_all items s.committed_state s.pendings) [
            | none ↦ (false, v)
            | some (m, pendings) ↦ (
              true,
              with_observer v observer (record s {
                committed_state = m;
                pendings = pendings;
                next_view_seq = inc64 s.next_view_seq;
              }),
            )
          ]
    ]

pub mark_pending : AoiViewSet → ℕ → ℕ → ViewSendToken → Bool × AoiViewSet
unfolding is_current
mark_pending v observer target token = elim (find observer v.views) [
  | none ↦ (false, v)
  | some s ↦
      if not (is_current token observer s)
      then (false, v)
      else (true, with_observer v observer (record s { pendings = insert target tt s.pendings }))
]

pub clear_resolved_pending : AoiViewSet → ℕ → ℕ → Bool × AoiViewSet
clear_resolved_pending v observer target = elim (find observer v.views) [
  | none ↦ (false, v)
  | some s ↦
      if has target s.pendings
      then (true, with_observer v observer (record s { pendings = erase target s.pendings }))
      else (false, v)
]

pub has_pending : AoiViewSet → ℕ → Bool
has_pending v observer = elim (find observer v.views) [
  | none ↦ false
  | some s ↦ not (is_nil s.pendings)
]

unfoldable pub need_resync : AoiViewSet → ℕ → Bool
need_resync v observer = elim (find observer v.views) [ none ↦ false | some s ↦ s.need_resync ]

-- `committedBaseline` and `borrowCommittedBaseline`
unfoldable pub committed_baseline : AoiViewSet → ℕ → Option ViewBaseline
committed_baseline v observer = elim (find observer v.views) [
  | none ↦ none
  | some s ↦ some s.committed_state
]

unfoldable pub mark_need_resync : AoiViewSet → ℕ → ℕ → Bool × AoiViewSet
mark_need_resync v observer epoch = elim (find observer v.views) [
  | none ↦ (false, v)
  | some s ↦
      if not (epoch == s.client_view_epoch) || s.resync_revision == max_u32 then (false, v) else (
        true,
        record v {
          views =
              insert observer
                (record s { need_resync = true; resync_revision = inc32 s.resync_revision })
                v.views;
          snapshot_tasks = erase observer v.snapshot_tasks;
        },
      )
]
