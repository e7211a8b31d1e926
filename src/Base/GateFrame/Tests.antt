-- ===== src/Base/GateFrame/Tests.antt =====
-- Runs of the gateway protocol at concrete values.
use mmorpg_game_server.Common.{◌^◌, ◌≡◌, refl, inr, some, [], ◌∷◌, arith}
use mmorpg_game_server.Base.Frame.{Outcome, ok}
use mmorpg_game_server.Base.Buffer.{Buffer, create, readable}
use mmorpg_game_server.Base.Buffer.Refine.{create-IsValid, create-empty}
use mmorpg_game_server.Base.GateFrame.{Header, encode_frame, decode_frame}
use mmorpg_game_server.Base.GateFrame.RoundTrip.{
  IsSendable, sent, decode-encode, decode_frame_returns,
}

abbrev request : Header
request = record {
  retr_flag = 1;
  msg_type = 2;
  module_id = 3;
  method_id = 4;
  seq = 2 ^ 50;
  player_id = 77;
  total_len = 0;
  src_service = 5;
  dst_service = 8;
}

request-IsSendable : IsSendable 8 request (1 ∷ 2 ∷ [])
request-IsSendable = record {
  fits = record {
    msg_type = omega arith;
    retr_flag = omega arith;
    module_id = omega arith;
    method_id = omega arith;
    seq = omega arith;
    player_id = omega arith;
    src_service = omega arith;
    dst_service = omega arith;
  };
  short = omega arith;
  addressed = inr refl;
}

decode-encode_example :
    (b : Buffer) × (decode_frame 8 (encode_frame create request (1 ∷ 2 ∷ []))
      ≡ some (ok (sent request (1 ∷ 2 ∷ [])) (1 ∷ 2 ∷ []), b))
    × (readable b ≡ [])
decode-encode_example =
    decode-encode 8 request (1 ∷ 2 ∷ []) create create-IsValid create-empty request-IsSendable

decode_frame_returns_example : (r : Outcome Header × Buffer) × (decode_frame 8 create ≡ some r)
decode_frame_returns_example = decode_frame_returns 8 create
