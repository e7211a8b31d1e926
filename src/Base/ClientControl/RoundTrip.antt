-- ===== src/Base/ClientControl/RoundTrip.antt =====
-- Packing and parsing the bodies of the control messages.
use mmorpg_game_server.Common.{ℕ, ◌/◌, ◌%◌, ◌^◌, ◌<◌, ◌≡◌, refl, some, arith}
use mmorpg_game_server.Base.Bytes.{Bytes, put_le}
use mmorpg_game_server.Base.Bytes.RoundTrip.{get_le-put_le}
use mmorpg_game_server.Base.ClientControl.{
  client_get, make_auth_body, parse_auth_body, AuthAckBody, make_auth_ack_body, parse_auth_ack_body,
}

-- The fields lie in the ranges of their C++ types.
pub record FitsAck (a : AuthAckBody) : Type 0 where
  pub player_id : a.player_id < 2 ^ 64
  pub session_id : a.session_id < 2 ^ 64
  pub epoch : a.epoch < 2 ^ 32
  pub zone_id : a.zone_id < 2 ^ 32
  pub dst_service : a.dst_service < 2 ^ 8

-- An authentication's player and ticket, numbers of 64 bits, are parsed as they were packed.
pub parse_auth_body-make :
    (player ticket : ℕ)
    → player < 2 ^ 64
    → ticket < 2 ^ 64
    → parse_auth_body (make_auth_body (record { player_id = player; ticket = ticket }))
      ≡ some (record { player_id = player; ticket = ticket })
unfolding parse_auth_body make_auth_body put_le client_get
parse_auth_body-make p t hp ht =
    rw
      (
        get_le-put_le 8 0 p body refl (omega arith) hp,
        get_le-put_le 8 8 t body refl (omega arith) ht,
      )
      refl
  where
    body : Bytes
    body = make_auth_body (record { player_id = p; ticket = t })

-- An acknowledgement within its field widths is parsed as it was packed.
pub parse_auth_ack_body-make :
    (a : AuthAckBody) → FitsAck a → parse_auth_ack_body (make_auth_ack_body a) ≡ some a
unfolding parse_auth_ack_body make_auth_ack_body put_le client_get
parse_auth_ack_body-make a f = λ i. some (record {
  player_id = get_le-put_le 8 0 a.player_id body refl (omega arith) f.player_id i;
  session_id = get_le-put_le 8 8 a.session_id body refl (omega arith) f.session_id i;
  epoch = get_le-put_le 4 16 a.epoch body refl (omega arith) f.epoch i;
  zone_id = get_le-put_le 4 20 a.zone_id body refl (omega arith) f.zone_id i;
  dst_service = last i;
})
  where
    body : Bytes
    body = make_auth_ack_body a

    last : a.dst_service / 1 % 256 ≡ a.dst_service
    last = omega (arith, f.dst_service)
