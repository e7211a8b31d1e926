-- ===== src/Scene/Aoi/ViewSet/Step.antt =====
-- Histories of a view set: calls of its operations in any order
-- (sceneServer/src-cpp/service/aoi/aoiViewSet.h).
use mmorpg_game_server.Common.{ℕ, List, [], ◌∷◌}
use mmorpg_game_server.Scene.Aoi.ViewSet.{
  AoiViewSet, ViewBaseline, ViewSnapshotToken, ViewSendToken, AcceptedPush, registry_observer,
  reset_observer, remove_observer, commit_accepted, mark_pending, clear_resolved_pending,
  mark_need_resync,
}
use mmorpg_game_server.Scene.Aoi.ViewSet.Snapshot.{
  begin_snapshot, mark_snapshot_part_accepted, commit_snapshot, abort_snapshot,
}

-- The operations that change the state, with their arguments.
pub data Op : Type 0 where
  registry_observer_op : ℕ → ℕ → Op
  reset_observer_op : ℕ → ℕ → ℕ → Op
  remove_observer_op : ℕ → ℕ → Op
  commit_accepted_op : ℕ → ViewSendToken → List AcceptedPush → Op
  mark_pending_op : ℕ → ℕ → ViewSendToken → Op
  clear_resolved_pending_op : ℕ → ℕ → Op
  mark_need_resync_op : ℕ → ℕ → Op
  begin_snapshot_op : ℕ → ViewBaseline → ℕ → Op
  mark_snapshot_part_accepted_op : ViewSnapshotToken → ℕ → Op
  commit_snapshot_op : ViewSnapshotToken → Op
  abort_snapshot_op : ViewSnapshotToken → Op

unfoldable pub step : AoiViewSet → Op → AoiViewSet
step v (registry_observer_op o epoch) = (registry_observer v o epoch).1
step v (reset_observer_op o old new) = (reset_observer v o old new).1
step v (remove_observer_op o epoch) = (remove_observer v o epoch).1
step v (commit_accepted_op o token items) = (commit_accepted v o token items).1
step v (mark_pending_op o target token) = (mark_pending v o target token).1
step v (clear_resolved_pending_op o target) = (clear_resolved_pending v o target).1
step v (mark_need_resync_op o epoch) = (mark_need_resync v o epoch).1
step v (begin_snapshot_op o frozen parts) = (begin_snapshot v o frozen parts).1
step v (mark_snapshot_part_accepted_op token index) = (mark_snapshot_part_accepted v token index).1
step v (commit_snapshot_op token) = (commit_snapshot v token).1
step v (abort_snapshot_op token) = (abort_snapshot v token).1

unfoldable pub run : AoiViewSet → List Op → AoiViewSet
unfolding step
run v [] = v
run v (op ∷ ops) = run (step v op) ops
