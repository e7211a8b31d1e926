-- ===== src/Gateway/ReturnRoute/Tests.antt =====
-- Runs of the return routes at concrete values.
use mmorpg_game_server.Common.{ℕ, ◌+◌, ◌*◌, ◌≡◌, refl, ◌≢◌, true, none, some, [], ◌∷◌, length, All}
use mmorpg_game_server.Common.Int.{pos}
use mmorpg_game_server.Common.Map.{IsMap}
use mmorpg_game_server.Gateway.ReturnRoute.{
  ReturnRoute, Table, add, take, get, of_session, is_expired, erase_by_session, sweep,
  sweep_expired, size,
}
use mmorpg_game_server.Gateway.ReturnRoute.Laws.{
  adds, takes, Inv, run, unless, run_empty-Inv, take-add, erase_by_session_lem, sweep_expired_lem,
}

abbrev route : ℕ → ℕ → ReturnRoute
route seq session = record {
  internal_seq = seq;
  client_session_id = session;
  client_request_id = 3;
  backend_service_id = 8;
  backend_zone_id = 1;
  backend_scene_id = 2;
  backend_channel_id = 1;
  backend_scene_incarnation = 7;
  backend_conn_name = [];
  player_id = 42;
  module_id = 5;
  method_id = 6;
  session_epoch = 1;
  created_at_ms = pos (1000 * seq);
}

abbrev routes : Table
routes = (1, route 1 10) ∷ (2, route 2 11) ∷ (3, route 3 10) ∷ []

run_empty-Inv_example :
    Inv 2 (run 2 [] (adds (route 1 10) ∷ adds (route 2 11) ∷ adds (route 3 10) ∷ takes 1 ∷ []))
run_empty-Inv_example =
    run_empty-Inv 2 (adds (route 1 10) ∷ adds (route 2 11) ∷ adds (route 3 10) ∷ takes 1 ∷ [])

added : (add routes (route 4 12) 4).0 ≡ true
unfolding add
added = refl

take-add_example :
    ((take (add routes (route 4 12) 4).1 4).0 ≡ some (route 4 12))
    × (get (take (add routes (route 4 12) 4).1 4).1 4 ≡ none)
    × ((seq : ℕ) → seq ≢ 4 → get (take (add routes (route 4 12) 4).1 4).1 seq ≡ get routes seq)
take-add_example = take-add routes (route 4 12) 4 added

routes-IsMap : IsMap routes
routes-IsMap = (refl, (refl, (refl, tt)))

erase_by_session_lem_example :
    ((erase_by_session routes 10).0 + size (erase_by_session routes 10).1 ≡ size routes)
    × ((seq : ℕ) → get (erase_by_session routes 10).1 seq ≡ unless (of_session 10) (get routes seq))
erase_by_session_lem_example = erase_by_session_lem routes 10 routes-IsMap

sweep_expired_lem_example :
    All (λ r. is_expired (pos 2500) 1000 r ≡ true) (sweep_expired routes (pos 2500) 1000).0
    × (length (sweep_expired routes (pos 2500) 1000).0
          + size (sweep_expired routes (pos 2500) 1000).1
        ≡ size routes)
    × ((sweep_expired routes (pos 2500) 1000).1 ≡ (sweep routes (pos 2500) 1000).1)
    × ((seq : ℕ)
        → get (sweep_expired routes (pos 2500) 1000).1 seq
          ≡ unless (is_expired (pos 2500) 1000) (get routes seq))
sweep_expired_lem_example = sweep_expired_lem routes (pos 2500) 1000 routes-IsMap
