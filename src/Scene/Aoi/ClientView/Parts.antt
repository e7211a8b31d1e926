-- ===== src/Scene/Aoi/ClientView/Parts.antt =====
-- The parts of a snapshot are sent to the end, or one is refused
-- (sceneServer/src-cpp/service/aoi/aoiClientView.cc).
use mmorpg_game_server.Common.{
  ℕ, zero, suc, ◌+◌, ◌^◌, ◌<◌, ◌≡◌, refl, ap, ◌∙◌, ◌⊎◌, inl, inr, Bool, true, false, ◌||◌, not,
  Option, some, arith, ◌==◌, Bool-cases, Option-cases,
}
use mmorpg_game_server.Common.Map.{Map, find, find-insert_self}
use mmorpg_game_server.Scene.Aoi.ViewSet.{
  AoiViewSet, ObserverSnapshot, ViewBaseline, SentEntityState, ViewSnapshotToken, max_u32, inc32,
  committed_baseline, mark_need_resync,
}
use mmorpg_game_server.Scene.Aoi.ClientView.Messages.{ClientPush}
use mmorpg_game_server.Scene.Aoi.ClientView.{
  AoiService, on_client_send_failed, send_parts, part_push,
}
use mmorpg_game_server.Scene.Aoi.ViewSet.Snapshot.{abort_snapshot, find_snapshot_task, token_of}
use mmorpg_game_server.Scene.Aoi.ViewSet.Progress.{progress, mark_snapshot_part_accepted-progress}

mark_need_resync-baseline :
    (v : AoiViewSet) (o epoch : ℕ)
    → committed_baseline (mark_need_resync v o epoch).1 o ≡ committed_baseline v o
unfolding mark_need_resync committed_baseline
mark_need_resync-baseline v o epoch = elim (Option-cases (find o v.views)) [
  | inl e ↦ rw (mark_need_resync, e) (rw (committed_baseline, e) refl)
  | inr (s, e) ↦
      elim (Bool-cases (not (epoch == s.client_view_epoch) || s.resync_revision == max_u32)) [
        | inl c ↦ rw (mark_need_resync, e, c) (rw (committed_baseline, e) refl)
        | inr c ↦
            rw (mark_need_resync, e, c)
              (rw
                (
                  committed_baseline,
                  find-insert_self o
                      (record s { need_resync = true; resync_revision = inc32 s.resync_revision })
                      v.views,
                  e,
                )
                refl)
      ]
]

abort_snapshot-views :
    (v : AoiViewSet) (token : ViewSnapshotToken) → (abort_snapshot v token).1.views ≡ v.views
unfolding abort_snapshot
abort_snapshot-views v token = elim (Option-cases (find_snapshot_task v token)) [
  | inl e ↦ rw (abort_snapshot, e) refl
  | inr (r, e) ↦ rw (abort_snapshot, e) refl
]

on_client_send_failed-baseline :
    (service : AoiService) (o epoch : ℕ)
    → committed_baseline (on_client_send_failed service o epoch).1.view_set o
      ≡ committed_baseline service.view_set o
unfolding on_client_send_failed
on_client_send_failed-baseline service o epoch =
    elim (Bool-cases (mark_need_resync service.view_set o epoch).0) [
      | inl c ↦ rw (on_client_send_failed, c) (mark_need_resync-baseline service.view_set o epoch)
      | inr c ↦ rw (on_client_send_failed, c) (mark_need_resync-baseline service.view_set o epoch)
    ]

-- The part is sent.
unfoldable pub part_accepted :
    (ClientPush → Bool) → Option ℕ → ViewSnapshotToken → Map SentEntityState → ℕ → Bool
part_accepted accepts business_id token ordered index =
    let push = part_push business_id token ordered index in
    not (push.observer_player_id == 0 || not (accepts push))

pub committed_baseline-found :
    (v : AoiViewSet) (o : ℕ) (s : ObserverSnapshot)
    → find o v.views ≡ some s
    → committed_baseline v o ≡ some s.committed_state
unfolding committed_baseline
committed_baseline-found v o s e = rw (committed_baseline, e) refl

refused_part :
    (accepts : ClientPush → Bool) (business_id : Option ℕ) (ordered : Map SentEntityState)
    (v : AoiViewSet) (o : ℕ) (s : ObserverSnapshot) (frozen : ViewBaseline) (n done left : ℕ)
    (dirty : Map (Unit {0}))
    → find o v.views ≡ some s
    → ((part_push business_id (token_of v o s n) ordered done).observer_player_id == 0
        || not (accepts (part_push business_id (token_of v o s n) ordered done)))
      ≡ true
    → committed_baseline
        (send_parts accepts business_id o (token_of v o s n) ordered (suc left) done (record {
          view_set = progress v o s frozen n done (suc left);
          dirty_observers = dirty;
        })).1.view_set
        o
      ≡ some s.committed_state
unfolding send_parts progress
refused_part accepts bid ordered v o s frozen n done left dirty e c =
    rw (send_parts, c)
      (on_client_send_failed-baseline
          (record {
            view_set =
                (abort_snapshot (progress v o s frozen n done (suc left)) (token_of v o s n)).1;
            dirty_observers = dirty;
          })
          o (token_of v o s n).client_view_epoch
        ∙ committed_baseline-found
            (abort_snapshot (progress v o s frozen n done (suc left)) (token_of v o s n)).1 o s
            (ap (find o)
                (abort_snapshot-views (progress v o s frozen n done (suc left)) (token_of v o s n))
              ∙ e))

-- Either every part is sent and the snapshot stands at its end, or a part was refused and the
-- baseline is what it was.
pub send_parts-progress :
    (accepts : ClientPush → Bool) (business_id : Option ℕ) (ordered : Map SentEntityState)
    (v : AoiViewSet) (o : ℕ) (s : ObserverSnapshot) (frozen : ViewBaseline) (n done left : ℕ)
    (dirty : Map (Unit {0}))
    → find o v.views ≡ some s
    → s.need_resync ≡ true
    → done + left ≡ n
    → n < 2 ^ 32
    → (send_parts accepts business_id o
          (token_of v o s n)
          ordered
          left
          done
          (record { view_set = progress v o s frozen n done left; dirty_observers = dirty })
        ≡ (true, record { view_set = progress v o s frozen n n 0; dirty_observers = dirty }))
      ⊎ ((send_parts accepts business_id o
            (token_of v o s n)
            ordered
            left
            done
            (record { view_set = progress v o s frozen n done left; dirty_observers = dirty })).0
          ≡ false)
        × (committed_baseline
              (send_parts accepts business_id o (token_of v o s n) ordered left done (record {
                view_set = progress v o s frozen n done left;
                dirty_observers = dirty;
              })).1.view_set
              o
            ≡ some s.committed_state)
        × ((i : ℕ) × (part_accepted accepts business_id (token_of v o s n) ordered i ≡ false))
unfolding send_parts part_accepted
send_parts-progress accepts bid ordered v o s frozen n done zero dirty e r total small = inl (
    ap (λ k. (true, record { view_set = progress v o s frozen n k 0; dirty_observers = dirty }))
      (omega arith))
send_parts-progress accepts bid ordered v o s frozen n done (suc left) dirty e r total small =
    elim (Bool-cases (
      (part_push bid (token_of v o s n) ordered done).observer_player_id == 0
      || not (accepts (part_push bid (token_of v o s n) ordered done)))) [
        | inl c ↦ inr (
          rw (send_parts, c) refl,
          refused_part accepts bid ordered v o s frozen n done left dirty e c,
          (done, rw c refl),
        )
        | inr c ↦
            rw
              (
                send_parts,
                c,
                mark_snapshot_part_accepted-progress v o s frozen n done left e r total small,
              )
              (send_parts-progress accepts bid ordered v o s frozen n (suc done) left dirty e r
                (omega arith) small)
      ]
