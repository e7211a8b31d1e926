-- ===== src/Scene/Aoi/ViewSet/Tests.antt =====
-- Concrete histories of a view set.
use mmorpg_game_server.Common.{◌≡◌, refl, true, some, List, [], ◌∷◌, arith}
use mmorpg_game_server.Common.Map.{find}
use mmorpg_game_server.Scene.Aoi.ViewSet.{
  SentEntityState, ViewSnapshotToken, SnapshotTask, empty_views, restart, registry_observer,
  committed_baseline,
}
use mmorpg_game_server.Scene.Aoi.ViewSet.Snapshot.{
  begin_snapshot, mark_snapshot_part_accepted, commit_snapshot, references, find_snapshot_task,
}
use mmorpg_game_server.Scene.Aoi.ViewSet.Step.{
  Op, registry_observer_op, begin_snapshot_op, mark_snapshot_part_accepted_op, step, run,
}
use mmorpg_game_server.Scene.Aoi.ViewSet.Invariant.{IsViewSet}
use mmorpg_game_server.Scene.Aoi.ViewSet.Reachable.{run-IsViewSet}
use mmorpg_game_server.Scene.Aoi.ViewSet.Completed.{commit_snapshot-parts}
use mmorpg_game_server.Common.Int.{pos}

abbrev player_state : SentEntityState
player_state = record {
  kind = 1;
  business_id = 70;
  entity_generation = 1;
  spatial_version = 1;
  x = pos 3;
  y = pos 4;
  dir = pos 0;
}

abbrev first_token : ViewSnapshotToken
first_token = record {
  observer_id = 7;
  client_view_epoch = 2;
  view_seq = 1;
  resync_revision = 0;
  snapshot_id = 1;
  part_count = 2;
}

-- An observer, a snapshot in two parts, both accepted, the second one twice.
abbrev two_parts : List Op
two_parts =
    registry_observer_op 7 2
    ∷ begin_snapshot_op 7 ((7, player_state) ∷ []) 2
    ∷ mark_snapshot_part_accepted_op first_token 1
    ∷ mark_snapshot_part_accepted_op first_token 1
    ∷ mark_snapshot_part_accepted_op first_token 0
    ∷ []

two_parts-IsViewSet : IsViewSet (run empty_views two_parts)
two_parts-IsViewSet = run-IsViewSet two_parts

run-IsViewSet_example : IsViewSet (run empty_views two_parts)
run-IsViewSet_example = run-IsViewSet two_parts

commit_snapshot-parts_example :
    (task : SnapshotTask) × (find 7 (run empty_views two_parts).snapshot_tasks ≡ some task)
    × (task.accepted_parts ≡ true ∷ true ∷ [])
    × (committed_baseline (commit_snapshot (run empty_views two_parts) first_token).1 7
        ≡ some task.baseline)
unfolding run step registry_observer restart begin_snapshot mark_snapshot_part_accepted
    commit_snapshot find_snapshot_task
commit_snapshot-parts_example = commit_snapshot-parts two_parts first_token (omega arith) refl

references_test : references (run empty_views two_parts) 7 ≡ true
unfolding references run step registry_observer restart begin_snapshot mark_snapshot_part_accepted
    find_snapshot_task
references_test = refl
