-- ===== src/Base/ClientControl/Tests.antt =====
-- Runs of the control bodies at concrete values.
use mmorpg_game_server.Common.{◌+◌, ◌^◌, ◌≡◌, some, arith}
use mmorpg_game_server.Base.ClientControl.{
  AuthBody, make_auth_body, parse_auth_body, AuthAckBody, make_auth_ack_body, parse_auth_ack_body,
}
use mmorpg_game_server.Base.ClientControl.RoundTrip.{parse_auth_body-make, parse_auth_ack_body-make}

abbrev login : AuthBody
login = record { player_id = 2 ^ 63 + 5; ticket = 123456789 }

abbrev ack : AuthAckBody
ack = record { player_id = 7; session_id = 2 ^ 33; epoch = 4; zone_id = 300; dst_service = 8 }

parse_auth_body-make_example : parse_auth_body (make_auth_body login) ≡ some login
parse_auth_body-make_example =
    parse_auth_body-make (2 ^ 63 + 5) 123456789 (omega arith) (omega arith)

parse_auth_ack_body-make_test : parse_auth_ack_body (make_auth_ack_body ack) ≡ some ack
parse_auth_ack_body-make_test = parse_auth_ack_body-make ack (record {
  player_id = omega arith;
  session_id = omega arith;
  epoch = omega arith;
  zone_id = omega arith;
  dst_service = omega arith;
})
