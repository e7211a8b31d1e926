-- ===== src/Scene/Aoi/ViewSet/Snapshot.antt =====
-- Replacing a client's whole view by a snapshot sent in parts, and the references that keep an
-- entity (sceneServer/src-cpp/service/aoi/aoiViewSet.cc).
use mmorpg_game_server.Common.{
  ℕ, zero, suc, Bool, true, false, ◌&&◌, ◌||◌, not, Option, none, some, List, [], ◌∷◌, leb, ◌==◌,
  if◌then◌else◌, length, get_or, replicate,
}
use mmorpg_game_server.Common.Map.{Map, find, insert, erase, has}
use mmorpg_game_server.Scene.Aoi.ViewSet.{
  AoiViewSet, ObserverSnapshot, ViewBaseline, ViewSnapshotToken, SnapshotTask, max_u64, inc64,
  inc32, valid_kind,
}

-- `findSnapshotTask`'s test of a token on the observer and on the task that is stored for it.
unfoldable pub matches : ViewSnapshotToken → ObserverSnapshot → ViewSnapshotToken → Bool
matches token s saved =
    s.need_resync
    && (s.client_view_epoch == token.client_view_epoch
        && (s.resync_revision == token.resync_revision
            && (s.next_view_seq == token.view_seq
                && (saved.snapshot_id == token.snapshot_id
                    && (saved.client_view_epoch == token.client_view_epoch
                        && (saved.resync_revision == token.resync_revision
                            && (saved.view_seq == token.view_seq
                                && saved.part_count == token.part_count)))))))

-- The observer's view and the task, where the token is the one of a snapshot in progress.
unfoldable pub find_snapshot_task :
    AoiViewSet → ViewSnapshotToken → Option (ObserverSnapshot × SnapshotTask)
unfolding matches
find_snapshot_task v token = elim (find token.observer_id v.views) [
  | none ↦ none
  | some s ↦ elim (find token.observer_id v.snapshot_tasks) [
    | none ↦ none
    | some task ↦ if matches token s task.token then some (s, task) else none
  ]
]

-- Every entity of a baseline has a number and a kind.
unfoldable pub all_valid : ViewBaseline → Bool
all_valid [] = true
all_valid ((entity, state) ∷ m) =
    if entity == 0 || not (valid_kind state.kind) then false else all_valid m

unfoldable pub refuses_snapshot : AoiViewSet → ℕ → ObserverSnapshot → ℕ → Bool
refuses_snapshot v observer s part_count =
    not s.need_resync
    || (part_count == 0
        || (has observer v.snapshot_tasks
            || (v.next_snapshot_id == max_u64 || s.next_view_seq == max_u64)))

unfoldable pub token_of : AoiViewSet → ℕ → ObserverSnapshot → ℕ → ViewSnapshotToken
token_of v observer s part_count = record {
  observer_id = observer;
  client_view_epoch = s.client_view_epoch;
  view_seq = s.next_view_seq;
  resync_revision = s.resync_revision;
  snapshot_id = v.next_snapshot_id;
  part_count = part_count;
}

-- The new task is put where there is none, as `emplace` does.
unfoldable pub begin_snapshot :
    AoiViewSet → ℕ → ViewBaseline → ℕ → Option ViewSnapshotToken × AoiViewSet
unfolding all_valid refuses_snapshot token_of
begin_snapshot v observer frozen part_count = elim (find observer v.views) [
  | none ↦ (none, v)
  | some s ↦
      if refuses_snapshot v observer s part_count
      then (none, v)
      else if not (all_valid frozen)
      then (none, v)
      else (
        some (token_of v observer s part_count),
        record v {
          snapshot_tasks =
              insert observer
                (record {
                  token = token_of v observer s part_count;
                  baseline = frozen;
                  accepted_parts = replicate part_count false;
                  accepted_count = 0;
                })
                v.snapshot_tasks;
          next_snapshot_id = inc64 v.next_snapshot_id;
        },
      )
]

-- `acceptedParts[partIndex] = true`
unfoldable pub set_part : ℕ → List Bool → List Bool
set_part i [] = []
set_part zero (b ∷ bs) = true ∷ bs
set_part (suc i) (b ∷ bs) = b ∷ set_part i bs

unfoldable pub accept_part : ℕ → SnapshotTask → SnapshotTask
unfolding set_part
accept_part index task = if get_or task.accepted_parts index false then task else record task {
  accepted_parts = set_part index task.accepted_parts;
  accepted_count = inc32 task.accepted_count;
}

unfoldable pub mark_snapshot_part_accepted : AoiViewSet → ViewSnapshotToken → ℕ → Bool × AoiViewSet
unfolding find_snapshot_task accept_part
mark_snapshot_part_accepted v token index = elim (find_snapshot_task v token) [
  | none ↦ (false, v)
  | some (s, task) ↦ if leb (length task.accepted_parts) index then (false, v) else (
    true,
    record v {
      snapshot_tasks = insert token.observer_id (accept_part index task) v.snapshot_tasks;
    },
  )
]

unfoldable pub commit_snapshot : AoiViewSet → ViewSnapshotToken → Bool × AoiViewSet
unfolding find_snapshot_task
commit_snapshot v token = elim (find_snapshot_task v token) [
  | none ↦ (false, v)
  | some (s, task) ↦ if not (task.accepted_count == token.part_count) then (false, v) else (
    true,
    record v {
      views =
          insert token.observer_id
            (record s {
              committed_state = task.baseline;
              pendings = [];
              next_view_seq = inc64 s.next_view_seq;
              need_resync = false;
            })
            v.views;
      snapshot_tasks = erase token.observer_id v.snapshot_tasks;
    },
  )
]

unfoldable pub abort_snapshot : AoiViewSet → ViewSnapshotToken → Bool × AoiViewSet
unfolding find_snapshot_task
abort_snapshot v token = elim (find_snapshot_task v token) [
  | none ↦ (false, v)
  | some (s, task) ↦ (true, record v { snapshot_tasks = erase token.observer_id v.snapshot_tasks })
]

-- The loops of the two forms of `references`.
any_view : (ObserverSnapshot → Bool) → Map ObserverSnapshot → Bool
any_view p [] = false
any_view p ((observer, s) ∷ m) = if p s then true else any_view p m

any_task : (SnapshotTask → Bool) → Map SnapshotTask → Bool
any_task p [] = false
any_task p ((observer, task) ∷ m) = if p task then true else any_task p m

-- The target stands in the baseline, in the generation.
holds_generation : ℕ → ℕ → ViewBaseline → Bool
holds_generation target generation m = elim (find target m) [
  | none ↦ false
  | some state ↦ state.entity_generation == generation
]

unfoldable pub references : AoiViewSet → ℕ → Bool
unfolding any_view any_task
references v target =
    if any_view (λ s. has target s.committed_state || has target s.pendings) v.views
    then true
    else any_task (λ task. has target task.baseline) v.snapshot_tasks

pub references_generation : AoiViewSet → ℕ → ℕ → Bool
unfolding any_view any_task holds_generation
references_generation v target generation =
    if any_view (λ s. has target s.pendings || holds_generation target generation s.committed_state)
      v.views
    then true
    else any_task (λ task. holds_generation target generation task.baseline) v.snapshot_tasks
