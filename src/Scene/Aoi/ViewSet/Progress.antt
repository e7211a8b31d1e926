-- ===== src/Scene/Aoi/ViewSet/Progress.antt =====
-- A snapshot from its start to its commit, part by part
-- (sceneServer/src-cpp/service/aoi/aoiViewSet.cc).
use mmorpg_game_server.Common.{
  ℕ, zero, suc, ◌+◌, ◌-◌, ◌^◌, ◌<◌, ◌≡◌, refl, ap, Bool, true, false, some, List, [], ◌∷◌, ◌++◌,
  arith, leb, ==-refl, length, get_or, replicate, length-append, length-replicate,
}
use mmorpg_game_server.Common.Map.{
  find, insert, erase, find-insert_self, insert-insert, erase-insert,
}
use mmorpg_game_server.Scene.Aoi.ViewSet.{
  AoiViewSet, ObserverSnapshot, ViewBaseline, SnapshotTask, inc64, inc32,
}
use mmorpg_game_server.Scene.Aoi.ViewSet.Snapshot.{
  begin_snapshot, mark_snapshot_part_accepted, commit_snapshot, find_snapshot_task, matches,
  set_part, accept_part, token_of, refuses_snapshot, all_valid,
}

-- The task after `done` of its parts, `left` more to come.
unfoldable pub task_at : AoiViewSet → ℕ → ObserverSnapshot → ViewBaseline → ℕ → ℕ → ℕ → SnapshotTask
task_at v o s frozen n done left = record {
  token = token_of v o s n;
  baseline = frozen;
  accepted_parts = replicate done true ++ replicate left false;
  accepted_count = done;
}

-- The view set at that point.
unfoldable pub progress : AoiViewSet → ℕ → ObserverSnapshot → ViewBaseline → ℕ → ℕ → ℕ → AoiViewSet
unfolding task_at
progress v o s frozen n done left = record v {
  snapshot_tasks = insert o (task_at v o s frozen n done left) v.snapshot_tasks;
  next_snapshot_id = inc64 v.next_snapshot_id;
}

-- The view set after the commit.
unfoldable pub completed : AoiViewSet → ℕ → ObserverSnapshot → ViewBaseline → AoiViewSet
completed v o s frozen = record {
  views =
      insert o
        (record s {
          committed_state = frozen;
          pendings = [];
          next_view_seq = inc64 s.next_view_seq;
          need_resync = false;
        })
        v.views;
  snapshot_tasks = erase o v.snapshot_tasks;
  next_snapshot_id = inc64 v.next_snapshot_id;
}

pub begin_snapshot-progress :
    (v : AoiViewSet) (o : ℕ) (s : ObserverSnapshot) (frozen : ViewBaseline) (n : ℕ)
    → find o v.views ≡ some s
    → refuses_snapshot v o s n ≡ false
    → all_valid frozen ≡ true
    → begin_snapshot v o frozen n ≡ (some (token_of v o s n), progress v o s frozen n 0 n)
unfolding begin_snapshot progress task_at
begin_snapshot-progress v o s frozen n e r a = rw (e, begin_snapshot, r, a) refl

matches_own :
    (v : AoiViewSet) (o : ℕ) (s : ObserverSnapshot) (n : ℕ)
    → s.need_resync ≡ true
    → matches (token_of v o s n) s (token_of v o s n) ≡ true
unfolding matches token_of
matches_own v o s n r =
    rw
      (
        r,
        ==-refl s.client_view_epoch,
        ==-refl s.resync_revision,
        ==-refl s.next_view_seq,
        ==-refl v.next_snapshot_id,
        ==-refl n,
      )
      refl

find_snapshot_task-progress :
    (v : AoiViewSet) (o : ℕ) (s : ObserverSnapshot) (frozen : ViewBaseline) (n done left : ℕ)
    → find o v.views ≡ some s
    → s.need_resync ≡ true
    → find_snapshot_task (progress v o s frozen n done left) (token_of v o s n)
      ≡ some (s, task_at v o s frozen n done left)
unfolding find_snapshot_task progress token_of task_at
find_snapshot_task-progress v o s frozen n done left e r =
    rw
      (
        e,
        find_snapshot_task,
        find-insert_self o (task_at v o s frozen n done left) v.snapshot_tasks,
        matches_own v o s n r,
      )
      refl

get_or-done :
    (done : ℕ) (bs : List Bool) → get_or (replicate done true ++ (false ∷ bs)) done false ≡ false
get_or-done zero bs = refl
get_or-done (suc done) bs = get_or-done done bs

set_part-done :
    (done : ℕ) (bs : List Bool)
    → set_part done (replicate done true ++ (false ∷ bs)) ≡ replicate (suc done) true ++ bs
unfolding set_part
set_part-done zero bs = refl
set_part-done (suc done) bs = ap (◌∷◌ true) (set_part-done done bs)

accept_part-progress :
    (v : AoiViewSet) (o : ℕ) (s : ObserverSnapshot) (frozen : ViewBaseline) (n done left : ℕ)
    → done < 2 ^ 32 - 1
    → accept_part done (task_at v o s frozen n done (suc left))
      ≡ task_at v o s frozen n (suc done) left
unfolding accept_part task_at
accept_part-progress v o s frozen n done left small =
    let count : inc32 done ≡ suc done = omega arith in
    rw
      (
        accept_part,
        get_or-done done (replicate left false),
        set_part-done done (replicate left false),
        count,
      )
      refl

length-done : (done left : ℕ) → length (replicate done true ++ replicate left false) ≡ done + left
length-done done left = omega (
  arith,
  length-append (replicate done true) (replicate left false),
  length-replicate done true,
  length-replicate left false,
)

-- Each part in turn.
pub mark_snapshot_part_accepted-progress :
    (v : AoiViewSet) (o : ℕ) (s : ObserverSnapshot) (frozen : ViewBaseline) (n done left : ℕ)
    → find o v.views ≡ some s
    → s.need_resync ≡ true
    → done + suc left ≡ n
    → n < 2 ^ 32
    → mark_snapshot_part_accepted (progress v o s frozen n done (suc left)) (token_of v o s n) done
      ≡ (true, progress v o s frozen n (suc done) left)
unfolding mark_snapshot_part_accepted accept_part progress task_at token_of
mark_snapshot_part_accepted-progress v o s frozen n done left e r total small =
    let some_left : leb (length (replicate done true ++ replicate (suc left) false)) done ≡ false =
      ground (arith, length-done done (suc left)) in
    rw
      (
        find_snapshot_task-progress v o s frozen n done (suc left) e r,
        mark_snapshot_part_accepted,
        some_left,
        accept_part-progress v o s frozen n done left (omega arith),
        insert-insert o (task_at v o s frozen n (suc done) left)
            (task_at v o s frozen n done (suc left)) v.snapshot_tasks,
      )
      refl

pub commit_snapshot-progress :
    (v : AoiViewSet) (o : ℕ) (s : ObserverSnapshot) (frozen : ViewBaseline) (n : ℕ)
    → find o v.views ≡ some s
    → s.need_resync ≡ true
    → commit_snapshot (progress v o s frozen n n 0) (token_of v o s n)
      ≡ (true, completed v o s frozen)
unfolding commit_snapshot progress task_at token_of completed
commit_snapshot-progress v o s frozen n e r =
    rw
      (
        find_snapshot_task-progress v o s frozen n n 0 e r,
        commit_snapshot,
        ==-refl n,
        erase-insert o (task_at v o s frozen n n 0) v.snapshot_tasks,
      )
      refl
