-- ===== src/Scene/Aoi/ClientView.antt =====
-- Bringing one observer's client up to date, by a delta or by a snapshot in parts
-- (sceneServer/src-cpp/service/aoi/aoiClientView.cc, and the part of aoiService.cc it calls).
-- The view of the replica and the answer of the push sink are arguments.
pub mod Messages
pub mod Effect
pub mod Sorted
pub mod Parts
pub mod Shows
pub mod Outcome
pub mod Accepted
pub mod Process
pub mod Success
mod Tests
use mmorpg_game_server.Common.{
  ℕ, zero, suc, ◌+◌, ◌-◌, ◌*◌, ◌/◌, ◌%◌, ◌^◌, ◌≤◌, ◌<◌, min, max, ◌≡◌, refl, sym, ap, ◌∙◌, ◌≢◌, ◌⊎◌,
  inl, inr, ◌↔◌, Bool, true, false, ◌&&◌, ◌||◌, not, Option, none, some, List, [], ◌∷◌, ◌++◌, map,
  append-nil, append_assoc, arith, ltb, leb, ◌==◌, if◌then◌else◌, Bool-cases, Option-cases, ==-refl,
  ltb→lt, lt→ltb, le→not_ltb, not_ltb→le, ==→eq, length, get_or, take, drop, replicate, retain,
  length-append, length-take, length-drop, length-replicate, take_all, drop_all, take-length-append,
  drop-length-append, drop-drop, drop-take, take-take, take-append-drop, take-append_le,
  drop-append_le, length-retain-le, All, All-append,
}
use mmorpg_game_server.Common.Int.{ℤ}
use mmorpg_game_server.Common.Map.{
  Map, find, insert, erase, has, find-insert, find-insert_self, find-erase, find-erase_self,
  has-none,
}
use mmorpg_game_server.Scene.Aoi.ViewSet.{
  AoiViewSet, ObserverSnapshot, ViewBaseline, SentEntityState, ViewSnapshotToken, SnapshotTask,
  ViewSendToken, AcceptedPush, AoiMsgKind, max_u64, max_u32, inc64, inc32, is_nil, empty_views,
  valid_kind, fresh, with_observer, registry_observer, reset_observer, remove_observer,
  prepare_send, process, process_all, is_current, commit_accepted, mark_pending,
  clear_resolved_pending, has_pending, need_resync, committed_baseline, mark_need_resync,
}
use mmorpg_game_server.Scene.Aoi.ViewSet.Snapshot.{
  begin_snapshot, mark_snapshot_part_accepted, commit_snapshot, abort_snapshot,
}
use mmorpg_game_server.Scene.Aoi.ClientView.Messages.{
  sort_by_key, AoiEntity, ClientPush, Message, sort_view, to_baseline, state_entity, to_proto,
  entered_of, moved_of, left_of, accepted_changes, accepted_leaves, part_size,
}

-- The part of the service's state that the observers share with it.
pub record AoiService : Type 0 where
  pub view_set : AoiViewSet
  pub dirty_observers : Map (Unit {0})

-- `OnClientSendFailed`
pub on_client_send_failed : AoiService → ℕ → ℕ → Bool × AoiService
on_client_send_failed service observer epoch =
    let r = mark_need_resync service.view_set observer epoch in
    if r.0
    then (
      true,
      record { view_set = r.1; dirty_observers = insert observer tt service.dirty_observers },
    )
    else (false, record service { view_set = r.1 })

-- The lists of the delta, and what is committed when it is accepted.
pub send_delta :
    (ClientPush → Bool)
    → Option ℕ
    → AoiService
    → ℕ
    → ViewSendToken
    → List AoiEntity
    → ViewBaseline
    → Bool × AoiService
send_delta accepts business_id service observer token current baseline =
    let accepted = accepted_changes current baseline ++ accepted_leaves current baseline in
    if is_nil accepted then (true, service) else elim business_id [
      | none ↦ (false, service)
      | some player_id ↦
          if not (has observer service.view_set.views)
          then (false, service)
          else if not (
              accepts (record {
                observer_player_id = player_id;
                client_view_epoch = token.client_view_epoch;
                message =
                    Message.view_delta token.next_view_seq (entered_of current baseline)
                      (moved_of current baseline) (left_of current baseline);
              }))
          then (false, service)
          else let r = commit_accepted service.view_set observer token accepted in
            (r.0, record service { view_set = r.1 })
    ]

-- `std::max(1, (frozen.size() + kPartSize - 1) / kPartSize)`, in 32 bits.
pub part_count_of : ViewBaseline → ℕ
part_count_of frozen = max 1 (((length frozen + (part_size - 1)) / part_size) % 2 ^ 32)

-- The entries of a part: those from `index * kPartSize` on, `kPartSize` at most.
pub part_entities : ℕ → Map SentEntityState → List AoiEntity
part_entities index ordered = map state_entity (take part_size (drop (index * part_size) ordered))

pub part_push : Option ℕ → ViewSnapshotToken → Map SentEntityState → ℕ → ClientPush
unfolding part_entities
part_push business_id token ordered index = record {
  observer_player_id = elim business_id [ none ↦ 0 | some player_id ↦ player_id ];
  client_view_epoch = token.client_view_epoch;
  message =
      Message.snapshot_part token.snapshot_id token.view_seq index token.part_count
        (map to_proto (part_entities index ordered));
}

-- The loop over the parts; `left` counts the parts from `index` on. A part that is refused ends
-- the snapshot and asks for another one.
pub send_parts :
    (ClientPush → Bool)
    → Option ℕ
    → ℕ
    → ViewSnapshotToken
    → Map SentEntityState
    → ℕ
    → ℕ
    → AoiService
    → Bool × AoiService
unfolding part_push
send_parts accepts business_id observer token ordered zero index service = (true, service)
send_parts accepts business_id observer token ordered (suc left) index service =
    let push = part_push business_id token ordered index in
    let rest =
      send_parts accepts business_id observer token ordered left (suc index) (record service {
        view_set = (mark_snapshot_part_accepted service.view_set token index).1;
      }) in
    if push.observer_player_id == 0 || not (accepts push)
    then (
      false,
      (on_client_send_failed
          (record service { view_set = (abort_snapshot service.view_set token).1 }) observer
          token.client_view_epoch).1,
    )
    else rest

pub send_snapshot :
    (ClientPush → Bool) → Option ℕ → AoiService → ℕ → ViewBaseline → Bool × AoiService
unfolding part_count_of
send_snapshot accepts business_id service observer frozen =
    let begun = begin_snapshot service.view_set observer frozen (part_count_of frozen) in
    elim begun.0 [
      | none ↦ (false, service)
      | some token ↦
          let sent =
            send_parts accepts business_id observer token (sort_by_key frozen)
              (part_count_of frozen) 0 (record service { view_set = begun.1 }) in
          if sent.0
          then (let r = commit_snapshot sent.1.view_set token in
              (r.0, record sent.1 { view_set = r.1 }))
          else (false, sent.1)
    ]

-- `ProcessAoiClientObserver`; `view` is the answer of `ViewOf`, in any order.
unfoldable pub process_observer :
    (ClientPush → Bool) → Option ℕ → List AoiEntity → AoiService → ℕ → Bool × AoiService
unfolding send_snapshot send_delta
process_observer accepts business_id view service observer =
    elim (prepare_send service.view_set observer) [
      | none ↦ (false, service)
      | some token ↦ elim (committed_baseline service.view_set observer) [
        | none ↦ (false, service)
        | some baseline ↦
            if need_resync service.view_set observer
            then send_snapshot accepts business_id service observer (to_baseline (sort_view view))
            else send_delta accepts business_id service observer token (sort_view view) baseline
      ]
    ]
