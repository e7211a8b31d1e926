-- ===== src/Scene/Aoi/ViewSet/Completed.antt =====
-- What a committed snapshot has been through
-- (sceneServer/src-cpp/service/aoi/aoiViewSet.cc).
use mmorpg_game_server.Common.{
  ◌%◌, ◌^◌, ◌≤◌, ◌<◌, ◌≡◌, refl, ap, ◌∙◌, inl, inr, Bool, true, false, some, List, [], ◌∷◌, arith,
  ◌==◌, Bool-cases, Option-cases, length, replicate,
}
use mmorpg_game_server.Common.Map.{find, find-insert_self}
use mmorpg_game_server.Scene.Aoi.ViewSet.{
  AoiViewSet, ObserverSnapshot, ViewSnapshotToken, SnapshotTask, inc64, empty_views,
  committed_baseline,
}
use mmorpg_game_server.Scene.Aoi.ViewSet.Snapshot.{commit_snapshot, find_snapshot_task, matches}
use mmorpg_game_server.Scene.Aoi.ViewSet.Step.{Op, run}
use mmorpg_game_server.Scene.Aoi.ViewSet.Invariant.{trues, IsViewSet}
use mmorpg_game_server.Scene.Aoi.ViewSet.Reachable.{found-Found, run-IsViewSet}

trues-le : (bs : List Bool) → trues bs ≤ length bs
trues-le [] = omega arith
trues-le (true ∷ bs) = omega (arith, trues-le bs)
trues-le (false ∷ bs) = omega (arith, trues-le bs)

all_true : (bs : List Bool) → trues bs ≡ length bs → bs ≡ replicate (length bs) true
all_true [] h = refl
all_true (true ∷ bs) h = ap (◌∷◌ true) (all_true bs (omega arith))
all_true (false ∷ bs) h = absurd (omega (arith, trues-le bs))

matches-parts :
    (token : ViewSnapshotToken) (s : ObserverSnapshot) (saved : ViewSnapshotToken)
    → matches token s saved ≡ true
    → saved.part_count ≡ token.part_count
unfolding matches
matches-parts token s saved h = ground arith

committed_parts :
    (v : AoiViewSet) (token : ViewSnapshotToken) (s : ObserverSnapshot) (task : SnapshotTask)
    → IsViewSet v
    → token.part_count < 2 ^ 32
    → find_snapshot_task v token ≡ some (s, task)
    → (task.accepted_count == token.part_count) ≡ true
    → task.accepted_parts ≡ replicate token.part_count true
committed_parts v token s task inv small e c =
    let found = found-Found v token s task e in
    let fit = (inv.fits token.observer_id task found.1).2 in
    let parts : length task.accepted_parts ≡ token.part_count =
      fit.parts_eq ∙ matches-parts token s task.token found.2 in
    let count : task.accepted_count ≡ trues task.accepted_parts % 2 ^ 32 = fit.count_eq in
    rw parts at
      (all_true task.accepted_parts (ground (arith, trues-le task.accepted_parts, parts, count, c)))

-- After every history of calls, a snapshot of fewer than 2 ^ 32 parts that is committed has had
-- every one of its parts accepted, and the baseline it began with becomes the committed one.
pub commit_snapshot-parts :
    (ops : List Op) (token : ViewSnapshotToken)
    → token.part_count < 2 ^ 32
    → (commit_snapshot (run empty_views ops) token).0 ≡ true
    → (task : SnapshotTask) × (find token.observer_id (run empty_views ops).snapshot_tasks
        ≡ some task)
      × (task.accepted_parts ≡ replicate token.part_count true)
      × (committed_baseline (commit_snapshot (run empty_views ops) token).1 token.observer_id
          ≡ some task.baseline)
unfolding commit_snapshot committed_baseline
commit_snapshot-parts ops token small h =
    let v = run empty_views ops in
    elim (Option-cases (find_snapshot_task v token)) [
      | inl e ↦ absurd (cc (rw (commit_snapshot, e) at h))
      | inr ((s, task), e) ↦ elim (Bool-cases (task.accepted_count == token.part_count)) [
        | inr c ↦ absurd (cc (rw (commit_snapshot, e, c) at h))
        | inl c ↦ (
          task,
          (found-Found v token s task e).1,
          committed_parts v token s task (run-IsViewSet ops) small e c,
          rw (commit_snapshot, e, c)
              (rw
                (
                  committed_baseline,
                  find-insert_self token.observer_id
                      (record s {
                        committed_state = task.baseline;
                        pendings = [];
                        next_view_seq = inc64 s.next_view_seq;
                        need_resync = false;
                      })
                      v.views,
                )
                refl),
        )
      ]
    ]
