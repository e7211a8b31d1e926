-- ===== src/Base/GatewayPlayer/Tests.antt =====
-- Runs of the binding's coding at concrete values.
use mmorpg_game_server.Common.{◌^◌, ◌≡◌, refl, true, some, [], ◌∷◌, arith, All}
use mmorpg_game_server.Base.Bytes.{IsByte, put_le}
use mmorpg_game_server.Base.Bytes.RoundTrip.{bytes_ok-All}
use mmorpg_game_server.Base.GatewayPlayer.{ClientData, Fits, valid, pack, unpack}
use mmorpg_game_server.Base.GatewayPlayer.RoundTrip.{unpack-pack, pack-unpack}

abbrev bound : ClientData
bound = record {
  player_id = 42;
  client_session = 2 ^ 40;
  client_epoch = 3;
  gateway_id = 1;
  scene_id = 9;
}

bound-Fits : Fits bound
bound-Fits = record {
  player_id = omega arith;
  client_session = omega arith;
  client_epoch = omega arith;
  gateway_id = omega arith;
  scene_id = omega arith;
}

bound-valid : valid bound ≡ true
unfolding valid
bound-valid = refl

unpack-pack_example : unpack (pack bound (1 ∷ 2 ∷ [])) ≡ some (bound, 1 ∷ 2 ∷ [])
unpack-pack_example = unpack-pack bound (1 ∷ 2 ∷ []) bound-Fits bound-valid

packed-bytes : All IsByte (pack bound (1 ∷ 2 ∷ []))
unfolding pack put_le
packed-bytes = bytes_ok-All (pack bound (1 ∷ 2 ∷ [])) refl

pack-unpack_test : (valid bound ≡ true) × (pack bound (1 ∷ 2 ∷ []) ≡ pack bound (1 ∷ 2 ∷ []))
pack-unpack_test =
    pack-unpack (pack bound (1 ∷ 2 ∷ [])) (1 ∷ 2 ∷ []) bound packed-bytes unpack-pack_example
