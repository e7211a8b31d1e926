-- ===== src/Scene/Player/Tests.antt =====
-- A purchase at concrete values.
use mmorpg_game_server.Common.{◌≡◌, refl, true, false, none, List, [], ◌∷◌, arith}
use mmorpg_game_server.Common.Int.{pos}
use mmorpg_game_server.Scene.Bag
use mmorpg_game_server.Scene.Bag.Invariant
use mmorpg_game_server.Scene.Bag.History.{created}
use mmorpg_game_server.Scene.Player.{
  EconomyRequest, Player, ok, record_mutation, economy_pending, modify_hp, set_hp, held,
  refuses_request, prepare_bag, reserve_with, freeze_save_snapshot, add_gold, same_id,
  reserve_economy, commit_economy,
}
use mmorpg_game_server.Scene.Player.History.{Call, adds_gold, reserves, modifies_hp, Inv, step, run}
use mmorpg_game_server.Scene.Player.Commit.{Delivered, commit_economy_lem}

abbrev rich : Player
rich = record {
  player_id = 42;
  epoch = 1;
  session = 1;
  client_binding = record {
    player_id = 42;
    client_session = 5;
    client_epoch = 3;
    gateway_id = 1;
    scene_id = 9;
  };
  hp = 100;
  mp = 50;
  gold = 500;
  x = pos 0;
  y = pos 0;
  dir = pos 0;
  scene_id = 1;
  mutation_revision = 0;
  persisted_version = 0;
  persisted_revision = 0;
  bag = record { capacity = 64; next_slot = 0; items = [] };
  economy_reservation = none;
  dirty = false;
  last_active_ms = pos 0;
}

rich-Inv : Inv rich
rich-Inv = record { bag = Invariant.create-Inv 64 rich.bag created; promise = tt }

abbrev purchase : EconomyRequest
purchase = record {
  operation_id = 97 ∷ 98 ∷ [];
  cost = 120;
  item_id = 1001;
  count = 3;
  rules_version = 1;
}

abbrev calls : List Call
calls = reserves purchase (omega arith) ∷ adds_gold (pos 50) ∷ modifies_hp (pos 5) ∷ []

committed : (commit_economy (97 ∷ 98 ∷ []) (run calls rich)).0 ≡ ok true
unfolding run step reserve_economy commit_economy modify_hp set_hp held add_gold record_mutation
    reserve_with prepare_bag refuses_request economy_pending freeze_save_snapshot same_id
    Bag.restore Bag.view Bag.add_item
committed = refl

commit_economy_lem_example :
    Delivered (97 ∷ 98 ∷ []) (run calls rich) (commit_economy (97 ∷ 98 ∷ []) (run calls rich)).1
commit_economy_lem_example = commit_economy_lem calls rich (97 ∷ 98 ∷ []) rich-Inv committed
