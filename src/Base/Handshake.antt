-- ===== src/Base/Handshake.antt =====
-- The handshake body by which a backend service names itself to the gateway
-- (zone_common/base/proto.h and proto.cc).
pub mod RoundTrip
mod Tests
use mmorpg_game_server.Common.{
  ℕ, zero, suc, ◌+◌, ◌-◌, ◌*◌, ◌/◌, ◌%◌, ◌^◌, ◌≤◌, ◌<◌, min, ◌≡◌, refl, sym, ap, ◌∙◌, ◌≢◌, ◌⊎◌, inl,
  inr, ◌↔◌, Bool, true, false, ◌&&◌, ◌||◌, not, Option, none, some, List, [], ◌∷◌, ◌++◌, map,
  append-nil, append_assoc, arith, ltb, leb, ◌==◌, if◌then◌else◌, Bool-cases, Option-cases, ==-refl,
  ltb→lt, not_ltb→le, ==→eq, length, get_or, take, drop, replicate, retain, length-append,
  length-take, length-drop, length-replicate, take_all, drop_all, take-length-append,
  drop-length-append, drop-drop, drop-take, take-take, take-append-drop, take-append_le,
  drop-append_le, length-retain-le, All, All-append,
}
use mmorpg_game_server.Base.Bytes.{Bytes, put_le, get_le}

-- `BackendHandshake`
pub record BackendHandshake : Type 0 where
  pub protocol_version : ℕ
  pub service_id : ℕ
  pub zone_id : ℕ
  pub scene_id : ℕ
  pub scene_incarnation : ℕ
  pub target_gateway_id : ℕ
  pub channel_id : ℕ

abbrev pub handshake_version : ℕ
handshake_version = 1

abbrev pub encoded_size : ℕ
encoded_size = 27

-- `ServerID::kScene`
abbrev pub scene_service : ℕ
scene_service = 8

pub valid_backend_handshake : BackendHandshake → Bool
valid_backend_handshake h =
    if not (h.protocol_version == handshake_version)
      || h.service_id == 0
      || h.zone_id == 0
      || h.target_gateway_id == 0
    then false
    else if h.service_id == scene_service
    then not (h.scene_id == 0) && not (h.scene_incarnation == 0)
    else h.scene_id == 0 && h.scene_incarnation == 0 && h.channel_id == 0

pub pack_backend_handshake : BackendHandshake → Bytes
pack_backend_handshake h =
    put_le 2 h.protocol_version
    ++ (put_le 1 h.service_id
        ++ (put_le 4 h.zone_id
            ++ (put_le 4 h.scene_id
                ++ (put_le 8 h.scene_incarnation
                    ++ (put_le 4 h.target_gateway_id ++ put_le 4 h.channel_id)))))

-- The fields at their offsets.
parsed : Bytes → BackendHandshake
parsed body = record {
  protocol_version = get_le body 0 2;
  service_id = get_le body 2 1;
  zone_id = get_le body 3 4;
  scene_id = get_le body 7 4;
  scene_incarnation = get_le body 11 8;
  target_gateway_id = get_le body 19 4;
  channel_id = get_le body 23 4;
}

pub unpack_backend_handshake : Bytes → Option BackendHandshake
unfolding parsed
unpack_backend_handshake body =
    if not (length body == encoded_size)
    then none
    else if not (valid_backend_handshake (parsed body))
    then none
    else some (parsed body)

-- Each field lies in the range of its C++ type.
pub record Fits (h : BackendHandshake) : Type 0 where
  pub protocol_version : h.protocol_version < 2 ^ 16
  pub service_id : h.service_id < 2 ^ 8
  pub zone_id : h.zone_id < 2 ^ 32
  pub scene_id : h.scene_id < 2 ^ 32
  pub scene_incarnation : h.scene_incarnation < 2 ^ 64
  pub target_gateway_id : h.target_gateway_id < 2 ^ 32
  pub channel_id : h.channel_id < 2 ^ 32
