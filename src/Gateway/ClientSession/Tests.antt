-- ===== src/Gateway/ClientSession/Tests.antt =====
-- Runs of the session table at concrete values.
use mmorpg_game_server.Common.{ℕ, ◌≡◌, refl, ◌≢◌, true, false, not, some, List, [], ◌∷◌, arith}
use mmorpg_game_server.Common.Int.{pos}
use mmorpg_game_server.Common.Map.{find}
use mmorpg_game_server.Gateway.ClientSession.{
  ClientSession, empty_table, create, get, find_by_player, epoch_at, bind, same_name,
  set_scene_binding, submittable, submit_scene,
}
use mmorpg_game_server.Gateway.ClientSession.History.{
  Call, creates, binds, assigns, step, run, run_one_session,
}
use mmorpg_game_server.Gateway.ClientSession.Binding.{
  IsBound, MadeWay, bind_lem, set_scene_binding_fixed, submit_scene_once, bind_stale,
}

-- Two clients, of whom the second takes over the player of the first.
abbrev calls : List Call
calls =
    creates (some 100) 8 (pos 1)
    ∷ creates (some 101) 8 (pos 2)
    ∷ binds 1 42 8 (pos 3)
    ∷ binds 2 42 8 (pos 4)
    ∷ []

abbrev winner : ClientSession
winner = record {
  session_id = 2;
  epoch = 2;
  player_id = 42;
  dst_service = 8;
  scene_id = 0;
  backend_channel_id = 0;
  scene_incarnation = 0;
  scene_conn_name = [];
  authed = true;
  scene_online_submitted = false;
  conn = some 101;
  created_at_ms = pos 2;
  authed_at_ms = pos 4;
}

found : get (run empty_table calls) 2 ≡ some winner
unfolding run step empty_table create bind
found = refl

run_one_session_example : (◌≡◌ {A = ℕ} 2 2) × (◌≡◌ {A = ℕ} 2 (epoch_at (run empty_table calls) 42))
run_one_session_example = run_one_session calls 2 2 winner winner found found (omega arith) refl

bound_again : (bind (run empty_table calls) 1 42 8 (pos 5)).0 ≡ true
unfolding run step empty_table create bind
bound_again = refl

bind_lem_example :
    IsBound (run empty_table calls) (bind (run empty_table calls) 1 42 8 (pos 5)).2 1 42
    × ((bind (run empty_table calls) 1 42 8 (pos 5)).1 ≢ 0
        → MadeWay
            (bind (run empty_table calls) 1 42 8 (pos 5)).1
            1
            (bind (run empty_table calls) 1 42 8 (pos 5)).2)
bind_lem_example = bind_lem (run empty_table calls) 1 42 8 (pos 5) bound_again

-- The winner with a scene.
abbrev placed : ClientSession
placed = record winner {
  scene_id = 9;
  backend_channel_id = 1;
  scene_incarnation = 4;
  scene_conn_name = 115 ∷ [];
}

abbrev in_scene : List Call
in_scene =
    creates (some 100) 8 (pos 1)
    ∷ creates (some 101) 8 (pos 2)
    ∷ binds 1 42 8 (pos 3)
    ∷ binds 2 42 8 (pos 4)
    ∷ assigns 2 9 1 4 (115 ∷ [])
    ∷ []

placed_found : get (run empty_table in_scene) 2 ≡ some placed
unfolding run step empty_table create bind set_scene_binding
placed_found = refl

set_scene_binding_fixed_test :
    ((set_scene_binding (run empty_table in_scene) 2 7 1 4 (115 ∷ [])).1 ≡ run empty_table in_scene)
    × ((set_scene_binding (run empty_table in_scene) 2 7 1 4 (115 ∷ [])).0 ≡ true
        → (◌≡◌ {A = ℕ} 9 7) × (◌≡◌ {A = ℕ} 1 1) × (◌≡◌ {A = ℕ} 4 4))
set_scene_binding_fixed_test =
    set_scene_binding_fixed (run empty_table in_scene) 2 7 1 4 (115 ∷ []) placed placed_found
      (omega arith)

announced : (submit_scene (run empty_table in_scene) placed (λ first. first)).0 ≡ true
unfolding run step empty_table create bind set_scene_binding submit_scene submittable same_name
announced = refl

submit_scene_once_test :
    (submit_scene
      (submit_scene (run empty_table in_scene) placed (λ first. first)).1
      placed
      (λ first. not first)).0
    ≡ true
submit_scene_once_test =
    submit_scene_once (run empty_table in_scene) placed (λ first. first) (λ first. not first)
      announced

held_by_two : find 42 (run empty_table calls).player_index ≡ some 2
unfolding run step empty_table create bind
held_by_two = refl

rebound : (bind (run empty_table calls) 2 43 8 (pos 6)).0 ≡ true
unfolding run step empty_table create bind
rebound = refl

bind_stale_example :
    (s : ClientSession) × (find_by_player (bind (run empty_table calls) 2 43 8 (pos 6)).2 42
      ≡ some s)
    × (s.player_id ≡ 43)
bind_stale_example =
    bind_stale (run empty_table calls) 2 42 43 8 (pos 6) held_by_two (omega arith) (omega arith)
      rebound
