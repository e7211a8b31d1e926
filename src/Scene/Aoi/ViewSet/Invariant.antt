-- ===== src/Scene/Aoi/ViewSet/Invariant.antt =====
-- What holds between the observers and the snapshots in progress, whatever the history
-- (sceneServer/src-cpp/service/aoi/aoiViewSet.cc).
use mmorpg_game_server.Common.{
  ℕ, suc, ◌%◌, ◌^◌, ◌≤◌, ◌<◌, ◌≡◌, refl, sym, ◌∙◌, inl, inr, Bool, true, false, none, some, List,
  [], ◌∷◌, arith, ◌==◌, if◌then◌else◌, Bool-cases, some-inj, ==→eq, length,
}
use mmorpg_game_server.Common.Map.{
  find, insert, erase, find-insert, find-insert_self, find-erase, find-erase_self,
}
use mmorpg_game_server.Scene.Aoi.ViewSet.{
  AoiViewSet, ObserverSnapshot, SnapshotTask, max_u64, max_u32, with_observer,
}

abbrev pub trues : List Bool → ℕ
trues [] = 0
trues (b ∷ bs) = if b then suc (trues bs) else trues bs

-- The task belongs to the observer's present state, and counts its accepted parts.
pub record Fits (o n : ℕ) (s : ObserverSnapshot) (task : SnapshotTask) : Type 0 where
  pub observer_eq : task.token.observer_id ≡ o
  pub resync : s.need_resync ≡ true
  pub epoch_eq : task.token.client_view_epoch ≡ s.client_view_epoch
  pub seq_eq : task.token.view_seq ≡ s.next_view_seq
  pub revision_eq : task.token.resync_revision ≡ s.resync_revision
  pub seq_lt : s.next_view_seq < max_u64
  pub id_lt : task.token.snapshot_id < n
  pub parts_eq : length task.accepted_parts ≡ task.token.part_count
  pub count_eq : task.accepted_count ≡ trues task.accepted_parts % 2 ^ 32

-- The sequence number has not wrapped around to 0.
abbrev pub Bounded : ObserverSnapshot → Type 0
Bounded s = ((1 ≤ s.next_view_seq) × (s.next_view_seq ≤ max_u64)) × (s.resync_revision ≤ max_u32)

abbrev pub FitsView : AoiViewSet → ℕ → SnapshotTask → Type 0
FitsView v o task =
    (s : ObserverSnapshot) × (find o v.views ≡ some s) × Fits o v.next_snapshot_id s task

pub record IsViewSet (v : AoiViewSet) : Type 0 where
  pub fits : (o : ℕ) (task : SnapshotTask) → find o v.snapshot_tasks ≡ some task → FitsView v o task
  pub bounded : (o : ℕ) (s : ObserverSnapshot) → find o v.views ≡ some s → Bounded s
  pub id_bounded : (1 ≤ v.next_snapshot_id) × (v.next_snapshot_id ≤ max_u64)

pub Fits-le :
    {o n k : ℕ} {s : ObserverSnapshot} {task : SnapshotTask}
    → n ≤ k
    → Fits o n s task
    → Fits o k s task
Fits-le h f = record {
  observer_eq = f.observer_eq;
  resync = f.resync;
  epoch_eq = f.epoch_eq;
  seq_eq = f.seq_eq;
  revision_eq = f.revision_eq;
  seq_lt = f.seq_lt;
  id_lt = (let l = f.id_lt in omega arith);
  parts_eq = f.parts_eq;
  count_eq = f.count_eq;
}

-- A change of one observer and its task.
pub at-IsViewSet :
    (v w : AoiViewSet) (o : ℕ)
    → IsViewSet v
    → v.next_snapshot_id ≤ w.next_snapshot_id
    → (1 ≤ w.next_snapshot_id) × (w.next_snapshot_id ≤ max_u64)
    → ((j : ℕ) → (o == j) ≡ false → find j w.views ≡ find j v.views)
    → ((j : ℕ) → (o == j) ≡ false → find j w.snapshot_tasks ≡ find j v.snapshot_tasks)
    → ((s : ObserverSnapshot) → find o w.views ≡ some s → Bounded s)
    → ((task : SnapshotTask) → find o w.snapshot_tasks ≡ some task → FitsView w o task)
    → IsViewSet w
at-IsViewSet v w o inv grow le views tasks b f = record {
  fits = λ j task e. elim (Bool-cases (o == j)) [
    | inl same ↦ rw (sym (==→eq o j same)) (f task (rw (==→eq o j same) e))
    | inr other ↦
        (let old = inv.fits j task (sym (tasks j other) ∙ e) in
          (old.0, views j other ∙ old.1, Fits-le grow old.2))
  ];
  bounded = λ j s e. elim (Bool-cases (o == j)) [
    | inl same ↦ b s (rw (==→eq o j same) e)
    | inr other ↦ inv.bounded j s (sym (views j other) ∙ e)
  ];
  id_bounded = le;
}

-- An observer that has no task any more takes any bounded view.
pub drop_task-IsViewSet :
    (v : AoiViewSet) (o : ℕ) (s : ObserverSnapshot)
    → IsViewSet v
    → Bounded s
    → IsViewSet (record v { views = insert o s v.views; snapshot_tasks = erase o v.snapshot_tasks })
drop_task-IsViewSet v o s inv b =
    at-IsViewSet v
      (record v { views = insert o s v.views; snapshot_tasks = erase o v.snapshot_tasks }) o inv
      (omega arith) inv.id_bounded (λ j ne. find-insert o j s v.views ∙ rw ne refl)
      (λ j ne. find-erase o j v.snapshot_tasks ∙ rw ne refl)
      (λ s' e. rw (sym (some-inj (sym (find-insert_self o s v.views) ∙ e))) b)
      (λ task e. absurd (cc (e, find-erase_self o v.snapshot_tasks)))

-- The same, where the observer goes.
pub remove-IsViewSet :
    (v : AoiViewSet) (o : ℕ)
    → IsViewSet v
    → IsViewSet (record v { views = erase o v.views; snapshot_tasks = erase o v.snapshot_tasks })
remove-IsViewSet v o inv =
    at-IsViewSet v (record v { views = erase o v.views; snapshot_tasks = erase o v.snapshot_tasks })
      o inv (omega arith) inv.id_bounded (λ j ne. find-erase o j v.views ∙ rw ne refl)
      (λ j ne. find-erase o j v.snapshot_tasks ∙ rw ne refl)
      (λ s e. absurd (cc (e, find-erase_self o v.views)))
      (λ task e. absurd (cc (e, find-erase_self o v.snapshot_tasks)))

pub abort-IsViewSet :
    (v : AoiViewSet) (o : ℕ)
    → IsViewSet v
    → IsViewSet (record v { snapshot_tasks = erase o v.snapshot_tasks })
abort-IsViewSet v o inv =
    at-IsViewSet v (record v { snapshot_tasks = erase o v.snapshot_tasks }) o inv (omega arith)
      inv.id_bounded (λ j ne. refl) (λ j ne. find-erase o j v.snapshot_tasks ∙ rw ne refl)
      (λ s e. inv.bounded o s e) (λ task e. absurd (cc (e, find-erase_self o v.snapshot_tasks)))

-- A new view for an observer without a task.
pub no_task-IsViewSet :
    (v : AoiViewSet) (o : ℕ) (s : ObserverSnapshot)
    → IsViewSet v
    → find o v.snapshot_tasks ≡ none
    → Bounded s
    → IsViewSet (with_observer v o s)
no_task-IsViewSet v o s inv absent b =
    at-IsViewSet v (with_observer v o s) o inv (omega arith) inv.id_bounded
      (λ j ne. find-insert o j s v.views ∙ rw ne refl) (λ j ne. refl)
      (λ s' e. rw (sym (some-inj (sym (find-insert_self o s v.views) ∙ e))) b)
      (λ task e. absurd (cc (e, absent)))

-- What a task says of its observer.
abbrev pub SameKey : ObserverSnapshot → ObserverSnapshot → Type 0
SameKey s s' =
    (s'.need_resync ≡ s.need_resync)
    × (s'.client_view_epoch ≡ s.client_view_epoch)
    × (s'.next_view_seq ≡ s.next_view_seq)
    × (s'.resync_revision ≡ s.resync_revision)

Fits-SameKey :
    {o n : ℕ} {s s' : ObserverSnapshot} {task : SnapshotTask}
    → SameKey s s'
    → Fits o n s task
    → Fits o n s' task
Fits-SameKey (r, e, q, v) f = record {
  observer_eq = f.observer_eq;
  resync = r ∙ f.resync;
  epoch_eq = f.epoch_eq ∙ sym e;
  seq_eq = f.seq_eq ∙ sym q;
  revision_eq = f.revision_eq ∙ sym v;
  seq_lt = rw q f.seq_lt;
  id_lt = f.id_lt;
  parts_eq = f.parts_eq;
  count_eq = f.count_eq;
}

-- A change of the baseline or of the pending targets.
pub SameKey-IsViewSet :
    (v : AoiViewSet) (o : ℕ) (s s' : ObserverSnapshot)
    → IsViewSet v
    → find o v.views ≡ some s
    → SameKey s s'
    → IsViewSet (with_observer v o s')
SameKey-IsViewSet v o s s' inv found key =
    at-IsViewSet v (with_observer v o s') o inv (omega arith) inv.id_bounded
      (λ j ne. find-insert o j s' v.views ∙ rw ne refl) (λ j ne. refl)
      (λ w e.
        rw (sym (some-inj (sym (find-insert_self o s' v.views) ∙ e)), key.2, key.3)
          (inv.bounded o s found))
      (λ task e. (
        s',
        find-insert_self o s' v.views,
        Fits-SameKey key
            (rw (some-inj (sym (inv.fits o task e).1 ∙ found)) at (inv.fits o task e).2),
      ))
