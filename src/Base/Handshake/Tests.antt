-- ===== src/Base/Handshake/Tests.antt =====
-- Runs of the handshake at concrete values.
use mmorpg_game_server.Common.{◌≡◌, refl, true, some, arith, length, All}
use mmorpg_game_server.Base.Bytes.{IsByte, put_le}
use mmorpg_game_server.Base.Bytes.RoundTrip.{bytes_ok-All}
use mmorpg_game_server.Base.Handshake.{
  BackendHandshake, Fits, encoded_size, valid_backend_handshake, pack_backend_handshake,
  unpack_backend_handshake,
}
use mmorpg_game_server.Base.Handshake.RoundTrip.{unpack_handshake-pack, pack-unpack_handshake}

abbrev scene : BackendHandshake
scene = record {
  protocol_version = 1;
  service_id = 8;
  zone_id = 1;
  scene_id = 2;
  scene_incarnation = 3;
  target_gateway_id = 4;
  channel_id = 300;
}

scene-Fits : Fits scene
scene-Fits = record {
  protocol_version = omega arith;
  service_id = omega arith;
  zone_id = omega arith;
  scene_id = omega arith;
  scene_incarnation = omega arith;
  target_gateway_id = omega arith;
  channel_id = omega arith;
}

scene-valid : valid_backend_handshake scene ≡ true
unfolding valid_backend_handshake
scene-valid = refl

unpack_handshake-pack_example : unpack_backend_handshake (pack_backend_handshake scene) ≡ some scene
unpack_handshake-pack_example = unpack_handshake-pack scene scene-Fits scene-valid

packed-bytes : All IsByte (pack_backend_handshake scene)
unfolding pack_backend_handshake put_le
packed-bytes = bytes_ok-All (pack_backend_handshake scene) refl

pack-unpack_handshake_example :
    (valid_backend_handshake scene ≡ true)
    × (length (pack_backend_handshake scene) ≡ encoded_size)
    × (pack_backend_handshake scene ≡ pack_backend_handshake scene)
pack-unpack_handshake_example =
    pack-unpack_handshake (pack_backend_handshake scene) scene packed-bytes
      unpack_handshake-pack_example
