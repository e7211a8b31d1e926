-- ===== src/Scene/Aoi/ClientView/Tests.antt =====
-- Concrete passes.
use mmorpg_game_server.Common.{
  ℕ, ◌*◌, ◌≡◌, refl, inr, Bool, true, false, some, List, [], ◌∷◌, arith,
}
use mmorpg_game_server.Scene.Aoi.ViewSet.{
  ObserverSnapshot, ViewBaseline, SentEntityState, prepare_send, need_resync, committed_baseline,
}
use mmorpg_game_server.Scene.Aoi.ClientView.Messages.{
  AoiEntity, ClientPush, sort_view, accepted_changes, accepted_leaves,
}
use mmorpg_game_server.Scene.Aoi.ClientView.{AoiService, process_observer, send_delta}
use mmorpg_game_server.Scene.Aoi.ClientView.Shows.{Shows}
use mmorpg_game_server.Scene.Aoi.ClientView.Process.{
  process_observer-Shows, process_observer-baseline,
}
use mmorpg_game_server.Scene.Aoi.ClientView.Success.{process_observer_succeeds}
use mmorpg_game_server.Scene.Aoi.ViewSet.Snapshot.{all_valid}
use mmorpg_game_server.Common.Int.{pos}

abbrev entity : ℕ → ℕ → ℕ → AoiEntity
entity id generation version = record {
  entity_id = id;
  kind = 1;
  business_id = id * 10;
  x = 5;
  y = 6;
  dir = pos 0;
  entity_generation = generation;
  actor_epoch = 1;
  spatial_version = version;
}

abbrev known_state : ℕ → ℕ → ℕ → SentEntityState
known_state id generation version = record {
  kind = 1;
  business_id = id * 10;
  entity_generation = generation;
  spatial_version = version;
  x = pos 5;
  y = pos 6;
  dir = pos 0;
}

abbrev synced : ObserverSnapshot
synced = record {
  committed_state = (7, known_state 7 1 1) ∷ (8, known_state 8 1 1) ∷ (9, known_state 9 1 1) ∷ [];
  pendings = [];
  client_view_epoch = 2;
  next_view_seq = 5;
  need_resync = false;
  resync_revision = 0;
}

abbrev service : AoiService
service = record {
  view_set = record { views = (7, synced) ∷ []; snapshot_tasks = []; next_snapshot_id = 3 };
  dirty_observers = [];
}

-- Entity 9 has left, 8 has moved and 6 is new.
abbrev view : List AoiEntity
view = entity 8 1 2 ∷ entity 6 1 1 ∷ entity 7 1 1 ∷ []

abbrev takes_all : ClientPush → Bool
takes_all push = true

abbrev takes_none : ClientPush → Bool
takes_none push = false

process_observer_succeeds_example : (process_observer takes_all (some 70) view service 7).0 ≡ true
unfolding all_valid
process_observer_succeeds_example =
    process_observer_succeeds takes_all 70 view service 7 synced (λ push. refl) (omega arith)
      (refl, (refl, (refl, tt)))
      ((omega arith, refl), ((omega arith, refl), ((omega arith, refl), tt))) refl refl
      (omega arith) (omega arith) (refl, (refl, (refl, tt))) refl
      (inr (
        (omega arith, refl, (refl, refl, inr (refl, omega arith))),
        ((omega arith, refl, tt), ((omega arith, refl, (refl, refl, inr (refl, omega arith))), tt)),
      ))

process_observer-Shows_example :
    (m : ViewBaseline) × (committed_baseline
        (process_observer takes_all (some 70) view service 7).1.view_set
        7
      ≡ some m)
    × Shows synced.committed_state view m
    × (need_resync (process_observer takes_all (some 70) view service 7).1.view_set 7 ≡ false)
unfolding committed_baseline
process_observer-Shows_example =
    process_observer-Shows takes_all (some 70) view service 7 synced.committed_state
      (refl, (refl, (refl, tt))) (refl, (refl, (refl, tt))) refl process_observer_succeeds_example

process_observer-baseline_example :
    committed_baseline (process_observer takes_none (some 70) view service 7).1.view_set 7
    ≡ some synced.committed_state
unfolding committed_baseline process_observer prepare_send need_resync send_delta accepted_changes
    accepted_leaves sort_view
process_observer-baseline_example =
    process_observer-baseline takes_none (some 70) view service 7 synced.committed_state
      (refl, (refl, (refl, tt))) (refl, (refl, (refl, tt))) refl refl
