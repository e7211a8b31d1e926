-- ===== src/Scene/Aoi/ViewSet/Reachable.antt =====
-- Every history of a view set keeps the invariant, and what follows for a snapshot in progress
-- (sceneServer/src-cpp/service/aoi/aoiViewSet.cc).
use mmorpg_game_server.Common.{
  ℕ, zero, suc, ◌≤◌, ◌<◌, ◌≡◌, refl, sym, ap, ◌∙◌, ◌≢◌, inl, inr, Bool, true, false, not, some,
  List, [], ◌∷◌, arith, leb, ◌==◌, Bool-cases, Option-cases, some-inj, length, get_or, replicate,
  length-replicate,
}
use mmorpg_game_server.Common.Map.{find, insert, has, find-insert, find-insert_self}
use mmorpg_game_server.Scene.Aoi.ViewSet.{
  AoiViewSet, ObserverSnapshot, ViewBaseline, ViewSnapshotToken, SnapshotTask, max_u64, inc64,
  empty_views,
}
use mmorpg_game_server.Scene.Aoi.ViewSet.Snapshot.{
  begin_snapshot, mark_snapshot_part_accepted, commit_snapshot, abort_snapshot, find_snapshot_task,
  matches, set_part, accept_part, token_of, refuses_snapshot, all_valid,
}
use mmorpg_game_server.Scene.Aoi.ViewSet.Step.{
  Op, registry_observer_op, reset_observer_op, remove_observer_op, commit_accepted_op,
  mark_pending_op, clear_resolved_pending_op, mark_need_resync_op, begin_snapshot_op,
  mark_snapshot_part_accepted_op, commit_snapshot_op, abort_snapshot_op, step, run,
}
use mmorpg_game_server.Scene.Aoi.ViewSet.Invariant.{
  trues, Fits, IsViewSet, at-IsViewSet, drop_task-IsViewSet, abort-IsViewSet,
}
use mmorpg_game_server.Scene.Aoi.ViewSet.Steps.{
  inc64-le, if-IsViewSet, registry_observer-IsViewSet, reset_observer-IsViewSet,
  remove_observer-IsViewSet, commit_accepted-IsViewSet, mark_pending-IsViewSet,
  clear_resolved_pending-IsViewSet, mark_need_resync-IsViewSet,
}

-- What a token that is found says.
pub found-Found :
    (v : AoiViewSet) (token : ViewSnapshotToken) (s : ObserverSnapshot) (task : SnapshotTask)
    → find_snapshot_task v token ≡ some (s, task)
    → (find token.observer_id v.views ≡ some s)
      × (find token.observer_id v.snapshot_tasks ≡ some task)
      × (matches token s task.token ≡ true)
unfolding find_snapshot_task
found-Found v token s task h = elim (Option-cases (find token.observer_id v.views)) [
  | inl e ↦ absurd (cc (rw (e, find_snapshot_task) at h))
  | inr (s', e) ↦ elim (Option-cases (find token.observer_id v.snapshot_tasks)) [
    | inl e' ↦ absurd (cc (rw (e, find_snapshot_task, e') at h))
    | inr (task', e') ↦ elim (Bool-cases (matches token s' task'.token)) [
      | inl m ↦
          (let h' = rw (e, find_snapshot_task, e', m) at h in
            let q = some-inj h' in
            (
              e ∙ ap (λ p. some p.0) q,
              e' ∙ ap (λ p. some p.1) q,
              ap (λ p. matches token p.0 p.1.token) (sym q) ∙ m,
            ))
      | inr m ↦ absurd (cc (rw (e, find_snapshot_task, e', m) at h))
    ]
  ]
]

length-set_part : (i : ℕ) (bs : List Bool) → length (set_part i bs) ≡ length bs
unfolding set_part
length-set_part i [] = refl
length-set_part zero (b ∷ bs) = refl
length-set_part (suc i) (b ∷ bs) = ap suc (length-set_part i bs)

trues-set_part :
    (i : ℕ) (bs : List Bool)
    → i < length bs
    → get_or bs i false ≡ false
    → trues (set_part i bs) ≡ suc (trues bs)
unfolding set_part
trues-set_part i [] h e = absurd (omega arith)
trues-set_part zero (b ∷ bs) h e = rw e refl
trues-set_part (suc i) (true ∷ bs) h e = ap suc (trues-set_part i bs (omega arith) e)
trues-set_part (suc i) (false ∷ bs) h e = trues-set_part i bs (omega arith) e

trues-replicate : (n : ℕ) → trues (replicate n false) ≡ 0
trues-replicate zero = refl
trues-replicate (suc n) = trues-replicate n

accept_part-Fits :
    (o n i : ℕ) (s : ObserverSnapshot) (task : SnapshotTask)
    → i < length task.accepted_parts
    → Fits o n s task
    → Fits o n s (accept_part i task)
unfolding accept_part
accept_part-Fits o n i s task h f = elim (Bool-cases (get_or task.accepted_parts i false)) [
  | inl e ↦ rw (e, accept_part) f
  | inr e ↦
      rw (e, accept_part)
        (record {
          observer_eq = f.observer_eq;
          resync = f.resync;
          epoch_eq = f.epoch_eq;
          seq_eq = f.seq_eq;
          revision_eq = f.revision_eq;
          seq_lt = f.seq_lt;
          id_lt = f.id_lt;
          parts_eq = length-set_part i task.accepted_parts ∙ f.parts_eq;
          count_eq =
              (let c = f.count_eq in omega (arith, trues-set_part i task.accepted_parts h e));
        })
]

-- A task put for an observer whose present state it belongs to.
put_task-IsViewSet :
    (v : AoiViewSet) (o n : ℕ) (s : ObserverSnapshot) (task : SnapshotTask)
    → IsViewSet v
    → v.next_snapshot_id ≤ n
    → (1 ≤ n) × (n ≤ max_u64)
    → find o v.views ≡ some s
    → Fits o n s task
    → IsViewSet (record v { snapshot_tasks = insert o task v.snapshot_tasks; next_snapshot_id = n })
put_task-IsViewSet v o n s task inv grow le found f =
    at-IsViewSet v
      (record v { snapshot_tasks = insert o task v.snapshot_tasks; next_snapshot_id = n }) o inv
      grow le (λ j ne. refl) (λ j ne. find-insert o j task v.snapshot_tasks ∙ rw ne refl)
      (λ s' e. inv.bounded o s' e)
      (λ t e. (s, found, rw (some-inj (sym (find-insert_self o task v.snapshot_tasks) ∙ e)) at f))

-- What an accepted request for a snapshot found.
accepts_snapshot :
    (v : AoiViewSet) (o : ℕ) (s : ObserverSnapshot) (n : ℕ)
    → refuses_snapshot v o s n ≡ false
    → (s.need_resync ≡ true)
      × (n ≢ 0)
      × (has o v.snapshot_tasks ≡ false)
      × (v.next_snapshot_id ≢ max_u64)
      × (s.next_view_seq ≢ max_u64)
unfolding refuses_snapshot
accepts_snapshot v o s n h = (ground arith, ground arith, ground arith, ground arith, ground arith)

begun-IsViewSet :
    (v : AoiViewSet) (o : ℕ) (s : ObserverSnapshot) (frozen : ViewBaseline) (n : ℕ)
    → IsViewSet v
    → find o v.views ≡ some s
    → (s.need_resync ≡ true)
      × (n ≢ 0)
      × (has o v.snapshot_tasks ≡ false)
      × (v.next_snapshot_id ≢ max_u64)
      × (s.next_view_seq ≢ max_u64)
    → IsViewSet (record v {
      snapshot_tasks =
          insert o
            (record {
              token = token_of v o s n;
              baseline = frozen;
              accepted_parts = replicate n false;
              accepted_count = 0;
            })
            v.snapshot_tasks;
      next_snapshot_id = inc64 v.next_snapshot_id;
    })
unfolding token_of
begun-IsViewSet v o s frozen n inv found (r, n0, absent, i, q) =
    put_task-IsViewSet v o (inc64 v.next_snapshot_id) s _ inv
      (let b = inv.id_bounded.1 in omega arith) (inc64-le v.next_snapshot_id inv.id_bounded.1 i)
      found
      (record {
        observer_eq = refl;
        resync = r;
        epoch_eq = refl;
        seq_eq = refl;
        revision_eq = refl;
        seq_lt = (let b = (inv.bounded o s found).0.1 in omega arith);
        id_lt = (let b = inv.id_bounded.1 in omega arith);
        parts_eq = length-replicate n false;
        count_eq = rw (trues-replicate n) refl;
      })

begin_snapshot-IsViewSet :
    (v : AoiViewSet) (o : ℕ) (frozen : ViewBaseline) (n : ℕ)
    → IsViewSet v
    → IsViewSet (begin_snapshot v o frozen n).1
unfolding begin_snapshot token_of
begin_snapshot-IsViewSet v o frozen n inv = elim (Option-cases (find o v.views)) [
  | inl e ↦ rw (e, begin_snapshot) inv
  | inr (s, e) ↦ elim (Bool-cases (refuses_snapshot v o s n)) [
    | inl r ↦ rw (e, begin_snapshot, r) inv
    | inr r ↦ elim (Bool-cases (all_valid frozen)) [
      | inr a ↦ rw (e, begin_snapshot, r, a) inv
      | inl a ↦
          rw (e, begin_snapshot, r, a)
            (begun-IsViewSet v o s frozen n inv e (accepts_snapshot v o s n r))
    ]
  ]
]

mark_snapshot_part_accepted-IsViewSet :
    (v : AoiViewSet) (token : ViewSnapshotToken) (i : ℕ)
    → IsViewSet v
    → IsViewSet (mark_snapshot_part_accepted v token i).1
unfolding mark_snapshot_part_accepted
mark_snapshot_part_accepted-IsViewSet v token i inv =
    elim (Option-cases (find_snapshot_task v token)) [
      | inl e ↦ rw (e, mark_snapshot_part_accepted) inv
      | inr ((s, task), e) ↦
          rw (e, mark_snapshot_part_accepted)
            (if-IsViewSet (leb (length task.accepted_parts) i) v _ inv (λ c.
              let fit = inv.fits token.observer_id task (found-Found v token s task e).1 in
              put_task-IsViewSet v token.observer_id v.next_snapshot_id fit.0 (accept_part i task)
                inv (omega arith) inv.id_bounded fit.1
                (accept_part-Fits token.observer_id v.next_snapshot_id i fit.0 task
                  (ground (arith, c)) fit.2)))
    ]

-- An observer with a snapshot in progress has a sequence number below the largest one.
committed_seq :
    (v : AoiViewSet) (token : ViewSnapshotToken) (s : ObserverSnapshot) (task : SnapshotTask)
    → IsViewSet v
    → find_snapshot_task v token ≡ some (s, task)
    → (1 ≤ inc64 s.next_view_seq) × (inc64 s.next_view_seq ≤ max_u64)
committed_seq v token s task inv e =
    let found = found-Found v token s task e in
    let fit = inv.fits token.observer_id task found.1 in
    let same : fit.0 ≡ s = some-inj (sym fit.1 ∙ found.0) in
    let below : s.next_view_seq < max_u64 = rw same at fit.2.seq_lt in
    inc64-le s.next_view_seq (omega arith) (λ q. omega arith)

commit_snapshot-IsViewSet :
    (v : AoiViewSet) (token : ViewSnapshotToken)
    → IsViewSet v
    → IsViewSet (commit_snapshot v token).1
unfolding commit_snapshot
commit_snapshot-IsViewSet v token inv = elim (Option-cases (find_snapshot_task v token)) [
  | inl e ↦ rw (e, commit_snapshot) inv
  | inr ((s, task), e) ↦
      rw (e, commit_snapshot)
        (if-IsViewSet (not (task.accepted_count == token.part_count)) v _ inv (λ c.
          drop_task-IsViewSet v token.observer_id _ inv (
            committed_seq v token s task inv e,
            (inv.bounded token.observer_id s (found-Found v token s task e).0).1,
          )))
]

abort_snapshot-IsViewSet :
    (v : AoiViewSet) (token : ViewSnapshotToken)
    → IsViewSet v
    → IsViewSet (abort_snapshot v token).1
unfolding abort_snapshot
abort_snapshot-IsViewSet v token inv = elim (Option-cases (find_snapshot_task v token)) [
  | inl e ↦ rw (e, abort_snapshot) inv
  | inr (r, e) ↦ rw (e, abort_snapshot) (abort-IsViewSet v token.observer_id inv)
]

step-IsViewSet : (v : AoiViewSet) (op : Op) → IsViewSet v → IsViewSet (step v op)
unfolding step
step-IsViewSet v (registry_observer_op o epoch) h = registry_observer-IsViewSet v o epoch h
step-IsViewSet v (reset_observer_op o old new) h = reset_observer-IsViewSet v o old new h
step-IsViewSet v (remove_observer_op o epoch) h = remove_observer-IsViewSet v o epoch h
step-IsViewSet v (commit_accepted_op o token items) h = commit_accepted-IsViewSet v o token items h
step-IsViewSet v (mark_pending_op o target token) h = mark_pending-IsViewSet v o target token h
step-IsViewSet v (clear_resolved_pending_op o target) h =
    clear_resolved_pending-IsViewSet v o target h
step-IsViewSet v (mark_need_resync_op o epoch) h = mark_need_resync-IsViewSet v o epoch h
step-IsViewSet v (begin_snapshot_op o frozen n) h = begin_snapshot-IsViewSet v o frozen n h
step-IsViewSet v (mark_snapshot_part_accepted_op token i) h =
    mark_snapshot_part_accepted-IsViewSet v token i h
step-IsViewSet v (commit_snapshot_op token) h = commit_snapshot-IsViewSet v token h
step-IsViewSet v (abort_snapshot_op token) h = abort_snapshot-IsViewSet v token h

run-keeps : (v : AoiViewSet) (ops : List Op) → IsViewSet v → IsViewSet (run v ops)
unfolding run
run-keeps v [] h = h
run-keeps v (op ∷ ops) h = run-keeps (step v op) ops (step-IsViewSet v op h)

-- After every history of calls, each snapshot in progress belongs to its observer's present
-- state: the observer is there, waits for a resynchronisation, and has the epoch, the sequence
-- number and the revision of the token; the task has a flag for every part and counts the set
-- ones. The sequence number of an observer and the next snapshot number have never wrapped
-- around to 0: they stay between 1 and the largest number of 64 bits.
pub run-IsViewSet : (ops : List Op) → IsViewSet (run empty_views ops)
run-IsViewSet ops = run-keeps empty_views ops (record {
  fits = λ o task e. absurd (cc (e));
  bounded = λ o s e. absurd (cc (e));
  id_bounded = (omega arith, omega arith);
})
