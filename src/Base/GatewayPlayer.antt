-- ===== src/Base/GatewayPlayer.antt =====
-- The player binding that the gateway puts in front of each business frame to a scene server
-- (zone_common/base/gatewayPlayer.h).
pub mod RoundTrip
pub mod Index
mod Tests
use mmorpg_game_server.Common.{
  ℕ, zero, suc, ◌+◌, ◌-◌, ◌*◌, ◌/◌, ◌%◌, ◌^◌, ◌≤◌, ◌<◌, min, ◌≡◌, refl, sym, ap, ◌∙◌, ◌≢◌, ◌⊎◌, inl,
  inr, ◌↔◌, Bool, true, false, ◌&&◌, ◌||◌, not, Option, none, some, List, [], ◌∷◌, ◌++◌, map,
  append-nil, append_assoc, arith, ltb, leb, ◌==◌, if◌then◌else◌, Bool-cases, Option-cases, ==-refl,
  ltb→lt, not_ltb→le, ==→eq, length, get_or, take, drop, replicate, retain, length-append,
  length-take, length-drop, length-replicate, take_all, drop_all, take-length-append,
  drop-length-append, drop-drop, drop-take, take-take, take-append-drop, take-append_le,
  drop-append_le, length-retain-le, All, All-append,
}
use mmorpg_game_server.Base.Bytes.{Bytes, put_le, get_le}

-- `ClientData`
pub record ClientData : Type 0 where
  pub player_id : ℕ
  pub client_session : ℕ
  pub client_epoch : ℕ
  pub gateway_id : ℕ
  pub scene_id : ℕ

unfoldable pub same_client_binding : ClientData → ClientData → Bool
same_client_binding a b =
    a.player_id == b.player_id
    && (a.client_session == b.client_session
        && (a.client_epoch == b.client_epoch
            && (a.gateway_id == b.gateway_id && a.scene_id == b.scene_id)))

-- `GatewayPlayer::Valid`
unfoldable pub valid : ClientData → Bool
valid d =
    not (d.player_id == 0)
    && (not (d.client_session == 0)
        && (not (d.client_epoch == 0) && (not (d.gateway_id == 0) && not (d.scene_id == 0))))

-- `GatewayPlayer::kHeaderSize`
abbrev pub header_size : ℕ
header_size = 32

abbrev pub magic : ℕ
magic = 0x4750

abbrev pub version : ℕ
version = 1

pub pack : ClientData → Bytes → Bytes
pack d payload =
    put_le 2 magic
    ++ (put_le 2 version
        ++ (put_le 8 d.player_id
            ++ (put_le 8 d.client_session
                ++ (put_le 4 d.client_epoch
                    ++ (put_le 4 d.gateway_id ++ (put_le 4 d.scene_id ++ payload))))))

parsed : Bytes → ClientData
parsed s = record {
  player_id = get_le s 4 8;
  client_session = get_le s 12 8;
  client_epoch = get_le s 20 4;
  gateway_id = get_le s 24 4;
  scene_id = get_le s 28 4;
}

pub unpack : Bytes → Option (ClientData × Bytes)
unfolding parsed
unpack s =
    if ltb (length s) header_size || not (get_le s 0 2 == magic) || not (get_le s 2 2 == version)
    then none
    else if not (valid (parsed s))
    then none
    else some (parsed s, drop header_size s)

-- Each field lies in the range of its C++ type.
pub record Fits (d : ClientData) : Type 0 where
  pub player_id : d.player_id < 2 ^ 64
  pub client_session : d.client_session < 2 ^ 64
  pub client_epoch : d.client_epoch < 2 ^ 32
  pub gateway_id : d.gateway_id < 2 ^ 32
  pub scene_id : d.scene_id < 2 ^ 32
