-- ===== src/Base/ClientFrame/Tests.antt =====
-- Runs of the client protocol at concrete values.
use mmorpg_game_server.Common.{◌^◌, ◌≡◌, refl, ap, ◌∙◌, true, some, List, [], ◌∷◌, ◌++◌, arith}
use mmorpg_game_server.Base.Bytes.{Bytes}
use mmorpg_game_server.Base.Frame.{Outcome}
use mmorpg_game_server.Base.Buffer.{Buffer, create, readable, append}
use mmorpg_game_server.Base.Buffer.Refine.{create-IsValid, create-empty, append_refines}
use mmorpg_game_server.Base.ClientFrame.{
  ClientHeader, valid_characters, decode_client_frame, valid_role_name, pad, name_of, field_ok,
}
use mmorpg_game_server.Base.ClientFrame.RoleName.{field-pad}
use mmorpg_game_server.Base.ClientFrame.RoundTrip.{
  IsSendable, frame, sent, Returns, decode_resync, decode_client_frame_returns,
}
use mmorpg_game_server.Base.ClientFrame.Stream.{
  Message, encode_all, decode_all, as_received, decode_all-encode_all,
}

abbrev hello : ClientHeader
hello = record {
  kind = 1;
  module_id = 7;
  method_id = 300;
  request_id = 2 ^ 40;
  total_len = 0;
  role_name = 0x41 ∷ 0xC3 ∷ 0xA9 ∷ [];
}

abbrev ping : ClientHeader
ping = record {
  kind = 3;
  module_id = 1;
  method_id = 6;
  request_id = 5;
  total_len = 0;
  role_name = [];
}

hello-IsSendable : IsSendable hello (1 ∷ 2 ∷ 3 ∷ [])
unfolding valid_role_name valid_characters
hello-IsSendable = record {
  fits = record {
    kind = omega arith;
    module_id = omega arith;
    method_id = omega arith;
    request_id = omega arith;
  };
  name = refl;
  short = omega arith;
}

ping-IsSendable : IsSendable ping []
unfolding valid_role_name valid_characters
ping-IsSendable = record {
  fits = record {
    kind = omega arith;
    module_id = omega arith;
    method_id = omega arith;
    request_id = omega arith;
  };
  name = refl;
  short = omega arith;
}

abbrev batch : List Message
batch = (hello, 1 ∷ 2 ∷ 3 ∷ []) ∷ (ping, []) ∷ []

decode_all-encode_all_example :
    (wire : Buffer) × (encode_all create batch ≡ some wire)
    × ((decode_all 2 wire).0 ≡ as_received batch)
    × (readable (decode_all 2 wire).1 ≡ [])
decode_all-encode_all_example =
    decode_all-encode_all batch create create-IsValid create-empty
      (hello-IsSendable, (ping-IsSendable, tt))

decode_client_frame_returns_example :
    (r : Outcome ClientHeader × Buffer) × (decode_client_frame create ≡ some r)
decode_client_frame_returns_example = decode_client_frame_returns create

abbrev late : Bytes
late = (0 ∷ 13 ∷ []) ++ (frame ping [] ++ (7 ∷ []))

late-readable : readable (append create late) ≡ late
late-readable =
    (append_refines create late create-IsValid).content ∙ ap (λ xs. xs ++ late) create-empty

decode_resync_example : Returns (append create late) (sent ping []) [] (7 ∷ [])
decode_resync_example =
    decode_resync ping 0 (13 ∷ []) [] (7 ∷ []) (append create late)
      (append_refines create late create-IsValid).valid ping-IsSendable
      (omega arith, (omega arith, tt)) late-readable

accepted_name : valid_role_name (0x41 ∷ 0xC3 ∷ 0xA9 ∷ []) ≡ true
unfolding valid_role_name valid_characters
accepted_name = refl

field-pad_test :
    (name_of (pad (0x41 ∷ 0xC3 ∷ 0xA9 ∷ [])) ≡ 0x41 ∷ 0xC3 ∷ 0xA9 ∷ [])
    × (field_ok (pad (0x41 ∷ 0xC3 ∷ 0xA9 ∷ [])) ≡ true)
field-pad_test = field-pad (0x41 ∷ 0xC3 ∷ 0xA9 ∷ []) accepted_name
