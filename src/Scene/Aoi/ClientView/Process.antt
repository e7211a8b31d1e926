-- ===== src/Scene/Aoi/ClientView/Process.antt =====
-- One pass for an observer (sceneServer/src-cpp/service/aoi/aoiClientView.cc).
use mmorpg_game_server.Common.{
  ℕ, ◌≡◌, refl, ◌⊎◌, inl, inr, Bool, true, false, Option, some, List, [], if◌then◌else◌, Bool-cases,
  Option-cases, some-inj,
}
use mmorpg_game_server.Common.Map.{find, has, find-insert_self, IsMap}
use mmorpg_game_server.Scene.Aoi.ViewSet.{
  AoiViewSet, ObserverSnapshot, ViewBaseline, ViewSendToken, inc64, prepare_send, need_resync,
  committed_baseline,
}
use mmorpg_game_server.Scene.Aoi.ClientView.Messages.{AoiEntity, ClientPush, sort_view, to_baseline}
use mmorpg_game_server.Scene.Aoi.ClientView.{
  AoiService, process_observer, send_delta, send_snapshot, part_count_of,
}
use mmorpg_game_server.Scene.Aoi.ClientView.Effect.{IsDistinct}
use mmorpg_game_server.Scene.Aoi.ClientView.Sorted.{sort_view-IsSorted}
use mmorpg_game_server.Scene.Aoi.ClientView.Shows.{
  Shows, sort_view-Shows, delta-Shows, to_baseline-Shows,
}
use mmorpg_game_server.Scene.Aoi.ClientView.Parts.{committed_baseline-found}
use mmorpg_game_server.Scene.Aoi.ClientView.Outcome.{
  Has, find-Has, send_delta-Sent, send_snapshot-begun, send_snapshot-refused,
}
use mmorpg_game_server.Scene.Aoi.ViewSet.Snapshot.{refuses_snapshot, all_valid}
use mmorpg_game_server.Scene.Aoi.ViewSet.Progress.{completed}

completed-Has :
    (v : AoiViewSet) (o : ℕ) (s : ObserverSnapshot) (frozen : ViewBaseline)
    → Has (completed v o s frozen) o frozen false
unfolding completed
completed-Has v o s frozen =
    let s' : ObserverSnapshot = record s {
      committed_state = frozen;
      pendings = [];
      next_view_seq = inc64 s.next_view_seq;
      need_resync = false;
    } in
    find-Has (completed v o s frozen) o s' (find-insert_self o s' v.views)

-- How a pass ends: with a baseline that shows the view, or with the baseline it found.
abbrev Ends : List AoiEntity → ℕ → ViewBaseline → Bool × AoiService → Type 0
Ends view o b w =
    ((w.0 ≡ true) × ((m : ViewBaseline) × Has w.1.view_set o m false × Shows b view m))
    ⊎ ((w.0 ≡ false) × (committed_baseline w.1.view_set o ≡ some b))

send_snapshot-Ends :
    (accepts : ClientPush → Bool) (business_id : Option ℕ) (view : List AoiEntity)
    (service : AoiService) (o : ℕ) (s : ObserverSnapshot)
    → IsDistinct view
    → find o service.view_set.views ≡ some s
    → s.need_resync ≡ true
    → Ends view o s.committed_state
        (send_snapshot accepts business_id service o (to_baseline (sort_view view)))
send_snapshot-Ends accepts bid view service o s d e r =
    let frozen = to_baseline (sort_view view) in
    elim (Bool-cases (refuses_snapshot service.view_set o s (part_count_of frozen))) [
      | inl f ↦
          rw (send_snapshot-refused accepts bid service o frozen s e (inl f))
            (inr (refl, committed_baseline-found service.view_set o s e))
      | inr f ↦ elim (Bool-cases (all_valid frozen)) [
        | inr a ↦
            rw (send_snapshot-refused accepts bid service o frozen s e (inr a))
              (inr (refl, committed_baseline-found service.view_set o s e))
        | inl a ↦ elim (send_snapshot-begun accepts bid service o frozen s e r f a) [
          | inl q ↦ rw q (
              inl (
                refl,
                (
                  frozen,
                  completed-Has service.view_set o s frozen,
                  sort_view-Shows s.committed_state view frozen d
                      (to_baseline-Shows s.committed_state (sort_view view)),
                ),
              ))
          | inr (q, keeps, refused) ↦ inr (q, keeps)
        ]
      ]
    ]

send_delta-Ends :
    (accepts : ClientPush → Bool) (business_id : Option ℕ) (view : List AoiEntity)
    (service : AoiService) (o : ℕ) (token : ViewSendToken) (s : ObserverSnapshot)
    → IsDistinct view
    → IsMap s.committed_state
    → find o service.view_set.views ≡ some s
    → s.need_resync ≡ false
    → Ends view o s.committed_state
        (send_delta accepts business_id service o token (sort_view view) s.committed_state)
send_delta-Ends accepts bid view service o token s d u e r =
    elim (send_delta-Sent accepts bid service o token (sort_view view) s e) [
      | inl q ↦ rw q (inr (refl, committed_baseline-found service.view_set o s e))
      | inr (t, (x, p, has_x)) ↦ inl (
        t,
        (
          x.0,
          rw r at has_x,
          sort_view-Shows s.committed_state view x.0 d (
              delta-Shows (sort_view view) s.committed_state s.pendings x
                (sort_view-IsSorted view d) u p),
        ),
      )
    ]

-- What a pass does for a known observer that has no snapshot in progress.
pub process_observer-found :
    (accepts : ClientPush → Bool) (business_id : Option ℕ) (view : List AoiEntity)
    (service : AoiService) (o : ℕ) (s : ObserverSnapshot)
    → find o service.view_set.views ≡ some s
    → has o service.view_set.snapshot_tasks ≡ false
    → process_observer accepts business_id view service o ≡ (
        if s.need_resync
        then send_snapshot accepts business_id service o (to_baseline (sort_view view))
        else send_delta accepts business_id service o
            (record {
              observer_id = o;
              client_view_epoch = s.client_view_epoch;
              next_view_seq = s.next_view_seq;
            })
            (sort_view view)
            s.committed_state)
unfolding process_observer prepare_send committed_baseline need_resync
process_observer-found accepts bid view service o s e free =
    rw (process_observer, prepare_send, e, free, committed_baseline, e, need_resync, e) refl

found-Ends :
    (accepts : ClientPush → Bool) (business_id : Option ℕ) (view : List AoiEntity)
    (service : AoiService) (o : ℕ) (s : ObserverSnapshot)
    → IsDistinct view
    → IsMap s.committed_state
    → find o service.view_set.views ≡ some s
    → Ends view o s.committed_state (process_observer accepts business_id view service o)
unfolding process_observer prepare_send
found-Ends accepts bid view service o s d u e =
    elim (Bool-cases (has o service.view_set.snapshot_tasks)) [
      | inl busy ↦
          rw (process_observer, prepare_send, e, busy)
            (inr (refl, committed_baseline-found service.view_set o s e))
      | inr free ↦
          rw (process_observer-found accepts bid view service o s e free)
            (elim (Bool-cases s.need_resync) [
              | inl r ↦ rw r (send_snapshot-Ends accepts bid view service o s d e r)
              | inr r ↦ rw r (send_delta-Ends accepts bid view service o _ s d u e r)
            ])
    ]

process_observer-Ends :
    (accepts : ClientPush → Bool) (business_id : Option ℕ) (view : List AoiEntity)
    (service : AoiService) (o : ℕ) (b : ViewBaseline)
    → IsDistinct view
    → IsMap b
    → committed_baseline service.view_set o ≡ some b
    → Ends view o b (process_observer accepts business_id view service o)
unfolding committed_baseline
process_observer-Ends accepts bid view service o b d u h =
    elim (Option-cases (find o service.view_set.views)) [
      | inl e ↦ absurd (cc (rw (committed_baseline, e) at h))
      | inr (s, e) ↦
          let same : s.committed_state ≡ b = some-inj (rw (committed_baseline, e) at h) in
          rw same at (found-Ends accepts bid view service o s d (rw same u) e)
    ]

-- A pass that reports success leaves the observer with a committed baseline that has the entities
-- of the view and no others, each in its generation and version of the place, and with its kind
-- and business number unless the state is the very one that was committed before; the place
-- itself is not compared. The observer then waits for no resynchronisation. The view has no
-- number twice, and the baseline before the pass has each key once.
pub process_observer-Shows :
    (accepts : ClientPush → Bool) (business_id : Option ℕ) (view : List AoiEntity)
    (service : AoiService) (o : ℕ) (b : ViewBaseline)
    → IsDistinct view
    → IsMap b
    → committed_baseline service.view_set o ≡ some b
    → (process_observer accepts business_id view service o).0 ≡ true
    → (m : ViewBaseline) × (committed_baseline
          (process_observer accepts business_id view service o).1.view_set
          o
        ≡ some m)
      × Shows b view m
      × (need_resync (process_observer accepts business_id view service o).1.view_set o ≡ false)
process_observer-Shows accepts bid view service o b d u h t =
    elim (process_observer-Ends accepts bid view service o b d u h) [
      | inl (t', (m, has_m, shows)) ↦ (m, has_m.baseline_eq, shows, has_m.resync_eq)
      | inr (f, keeps) ↦ absurd (cc (t, f))
    ]

-- A pass that reports a failure, at whatever point, leaves the observer's committed baseline as
-- it was. The view has no number twice, and the baseline has each key once.
pub process_observer-baseline :
    (accepts : ClientPush → Bool) (business_id : Option ℕ) (view : List AoiEntity)
    (service : AoiService) (o : ℕ) (b : ViewBaseline)
    → IsDistinct view
    → IsMap b
    → committed_baseline service.view_set o ≡ some b
    → (process_observer accepts business_id view service o).0 ≡ false
    → committed_baseline (process_observer accepts business_id view service o).1.view_set o ≡ some b
process_observer-baseline accepts bid view service o b d u h t =
    elim (process_observer-Ends accepts bid view service o b d u h) [
      | inl (t', r) ↦ absurd (cc (t, t'))
      | inr (f, keeps) ↦ keeps
    ]
