-- ===== src/Scene/Aoi/ViewSet/Steps.antt =====
-- Every operation of a view set keeps the invariant
-- (sceneServer/src-cpp/service/aoi/aoiViewSet.cc).
use mmorpg_game_server.Common.{
  ℕ, ◌≤◌, ◌≡◌, ◌≢◌, refl, inl, inr, Bool, true, false, ◌||◌, not, List, arith, leb, ◌==◌,
  if◌then◌else◌, Bool-cases, Option-cases,
}
use mmorpg_game_server.Common.Map.{find, has, has-none}
use mmorpg_game_server.Scene.Aoi.ViewSet.{
  AoiViewSet, ViewSendToken, AcceptedPush, max_u64, max_u32, inc64, inc32, is_nil, restart, fresh,
  registry_observer, reset_observer, remove_observer, process_all, is_current, commit_accepted,
  mark_pending, clear_resolved_pending, mark_need_resync,
}
use mmorpg_game_server.Scene.Aoi.ViewSet.Invariant.{
  Bounded, IsViewSet, drop_task-IsViewSet, remove-IsViewSet, no_task-IsViewSet, SameKey-IsViewSet,
}

pub if-IsViewSet :
    (b : Bool) (v : AoiViewSet) (w : Bool × AoiViewSet)
    → IsViewSet v
    → (b ≡ false → IsViewSet w.1)
    → IsViewSet (if b then (false, v) else w).1
if-IsViewSet true v w h f = h
if-IsViewSet false v w h f = f refl

fresh-Bounded : (epoch : ℕ) → Bounded (fresh epoch)
fresh-Bounded epoch = ((omega arith, omega arith), omega arith)

pub registry_observer-IsViewSet :
    (v : AoiViewSet) (o epoch : ℕ) → IsViewSet v → IsViewSet (registry_observer v o epoch).1
unfolding registry_observer restart
registry_observer-IsViewSet v o epoch inv = elim (Option-cases (find o v.views)) [
  | inl e ↦
      rw (e, registry_observer) (drop_task-IsViewSet v o (fresh epoch) inv (fresh-Bounded epoch))
  | inr (s, e) ↦
      rw (e, registry_observer)
        (if-IsViewSet (leb epoch s.client_view_epoch) v _ inv
          (λ c. drop_task-IsViewSet v o (fresh epoch) inv (fresh-Bounded epoch)))
]

pub reset_observer-IsViewSet :
    (v : AoiViewSet) (o old new : ℕ) → IsViewSet v → IsViewSet (reset_observer v o old new).1
unfolding reset_observer restart
reset_observer-IsViewSet v o old new inv = elim (Option-cases (find o v.views)) [
  | inl e ↦ rw (e, reset_observer) inv
  | inr (s, e) ↦
      rw (e, reset_observer)
        (if-IsViewSet (not (s.client_view_epoch == old) || leb new s.client_view_epoch) v _ inv
          (λ c. drop_task-IsViewSet v o (fresh new) inv (fresh-Bounded new)))
]

pub remove_observer-IsViewSet :
    (v : AoiViewSet) (o epoch : ℕ) → IsViewSet v → IsViewSet (remove_observer v o epoch).1
unfolding remove_observer
remove_observer-IsViewSet v o epoch inv = elim (Option-cases (find o v.views)) [
  | inl e ↦ rw (e, remove_observer) inv
  | inr (s, e) ↦
      rw (e, remove_observer)
        (if-IsViewSet (not (s.client_view_epoch == epoch)) v _ inv (λ c. remove-IsViewSet v o inv))
]

-- Below the largest number there is no wrap-around.
pub inc64-le : (n : ℕ) → n ≤ max_u64 → n ≢ max_u64 → (1 ≤ inc64 n) × (inc64 n ≤ max_u64)
inc64-le n l h = (omega arith, omega arith)

pub inc32-le : (n : ℕ) → inc32 n ≤ max_u32
inc32-le n = omega arith

pub commit_accepted-IsViewSet :
    (v : AoiViewSet) (o : ℕ) (token : ViewSendToken) (items : List AcceptedPush)
    → IsViewSet v
    → IsViewSet (commit_accepted v o token items).1
unfolding commit_accepted
commit_accepted-IsViewSet v o token items inv =
    if-IsViewSet (has o v.snapshot_tasks) v _ inv (λ absent. elim (Option-cases (find o v.views)) [
      | inl e ↦ rw (e, commit_accepted) inv
      | inr (s, e) ↦
          rw (e, commit_accepted)
            (if-IsViewSet (not (is_current token o s)) v _ inv (λ c.
              elim (Bool-cases (is_nil items)) [
                | inl n ↦ rw n inv
                | inr n ↦ rw n (
                    if-IsViewSet (s.next_view_seq == max_u64) v _ inv (λ c'.
                      elim (Option-cases (process_all items s.committed_state s.pendings)) [
                        | inl p ↦ rw p inv
                        | inr (r, p) ↦ rw p (
                            no_task-IsViewSet v o _ inv (has-none o v.snapshot_tasks absent) (
                              inc64-le s.next_view_seq (inv.bounded o s e).0.1 (ground (arith, c')),
                              (inv.bounded o s e).1,
                            ))
                      ]))
              ]))
    ])

pub mark_pending-IsViewSet :
    (v : AoiViewSet) (o target : ℕ) (token : ViewSendToken)
    → IsViewSet v
    → IsViewSet (mark_pending v o target token).1
unfolding mark_pending
mark_pending-IsViewSet v o target token inv = elim (Option-cases (find o v.views)) [
  | inl e ↦ rw (e, mark_pending) inv
  | inr (s, e) ↦
      rw (e, mark_pending)
        (if-IsViewSet (not (is_current token o s)) v _ inv
          (λ c. SameKey-IsViewSet v o s _ inv e (refl, refl, refl, refl)))
]

pub clear_resolved_pending-IsViewSet :
    (v : AoiViewSet) (o target : ℕ) → IsViewSet v → IsViewSet (clear_resolved_pending v o target).1
unfolding clear_resolved_pending
clear_resolved_pending-IsViewSet v o target inv = elim (Option-cases (find o v.views)) [
  | inl e ↦ rw (e, clear_resolved_pending) inv
  | inr (s, e) ↦ elim (Bool-cases (has target s.pendings)) [
    | inl h ↦
        rw (e, clear_resolved_pending, h) (SameKey-IsViewSet v o s _ inv e (refl, refl, refl, refl))
    | inr h ↦ rw (e, clear_resolved_pending, h) inv
  ]
]

pub mark_need_resync-IsViewSet :
    (v : AoiViewSet) (o epoch : ℕ) → IsViewSet v → IsViewSet (mark_need_resync v o epoch).1
unfolding mark_need_resync
mark_need_resync-IsViewSet v o epoch inv = elim (Option-cases (find o v.views)) [
  | inl e ↦ rw (e, mark_need_resync) inv
  | inr (s, e) ↦
      rw (e, mark_need_resync)
        (if-IsViewSet (not (epoch == s.client_view_epoch) || s.resync_revision == max_u32) v _ inv
          (λ c. drop_task-IsViewSet v o _ inv ((inv.bounded o s e).0, inc32-le s.resync_revision)))
]
