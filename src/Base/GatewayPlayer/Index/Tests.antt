-- ===== src/Base/GatewayPlayer/Index/Tests.antt =====
-- Runs of the index at concrete values.
use mmorpg_game_server.Common.{ℕ, ◌≤◌, ◌≡◌, refl, true, List, [], ◌∷◌}
use mmorpg_game_server.Common.Map.{has}
use mmorpg_game_server.Base.GatewayPlayer.{ClientData, same_client_binding, valid}
use mmorpg_game_server.Base.GatewayPlayer.Index.{
  empty_index, bucket, install, rebind, bind, matches, drop_old_route,
}
use mmorpg_game_server.Base.GatewayPlayer.Index.Consistency.{
  Call, binds, step, run, epoch_of, run-exclusive, run_epoch, run-Inv, empty_index-Inv,
  bind-matches,
}

abbrev older : ClientData
older = record {
  player_id = 42;
  client_session = 5;
  client_epoch = 3;
  gateway_id = 1;
  scene_id = 9;
}

abbrev newer : ClientData
newer = record {
  player_id = 42;
  client_session = 6;
  client_epoch = 4;
  gateway_id = 1;
  scene_id = 9;
}

abbrev calls : List Call
calls = binds 1 older ∷ binds 2 newer ∷ binds 1 older ∷ []

held_once : has 42 (bucket 2 (run empty_index calls).by_connection) ≡ true
unfolding run step empty_index bind rebind install drop_old_route valid same_client_binding
held_once = refl

run-exclusive_example : ◌≡◌ {A = ℕ} 2 2
run-exclusive_example = run-exclusive calls 2 2 42 held_once held_once

run_epoch_example : epoch_of empty_index 42 ≤ epoch_of (run empty_index calls) 42
run_epoch_example = run_epoch empty_index calls 42

accepted : (bind (run empty_index (binds 1 older ∷ [])) 2 newer).0 ≡ true
unfolding run step empty_index bind rebind install drop_old_route valid same_client_binding
accepted = refl

bind-matches_example :
    matches (bind (run empty_index (binds 1 older ∷ [])) 2 newer).1 2 newer ≡ true
bind-matches_example =
    bind-matches (run empty_index (binds 1 older ∷ [])) 2 newer
      (run-Inv empty_index (binds 1 older ∷ []) empty_index-Inv) accepted
