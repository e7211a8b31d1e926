-- ===== src/Base/GateFrame.antt =====
-- The frames between the servers of a zone (zone_common/base/proto.h and proto.cc): a header of 32
-- bytes in network order, and the body.
pub mod RoundTrip
mod Tests
use mmorpg_game_server.Common.{
  ℕ, zero, suc, ◌+◌, ◌-◌, ◌*◌, ◌/◌, ◌%◌, ◌^◌, ◌≤◌, ◌<◌, min, ◌≡◌, refl, sym, ap, ◌∙◌, ◌≢◌, ◌⊎◌, inl,
  inr, ◌↔◌, Bool, true, false, ◌&&◌, ◌||◌, not, Option, none, some, List, [], ◌∷◌, ◌++◌, map,
  append-nil, append_assoc, arith, ltb, leb, ◌==◌, if◌then◌else◌, Bool-cases, Option-cases, ==-refl,
  ltb→lt, lt→ltb, le→not_ltb, not_ltb→le, ==→eq, length, get_or, take, drop, replicate, retain,
  length-append, length-take, length-drop, length-replicate, take_all, drop_all, take-length-append,
  drop-length-append, drop-drop, drop-take, take-take, take-append-drop, take-append_le,
  drop-append_le, length-retain-le, All, All-append,
}
use mmorpg_game_server.Base.Bytes.{Bytes, put_be, get_be}
use mmorpg_game_server.Base.Buffer.{
  Buffer, readable, readable_bytes, retrieve, append, read_uint, read_as_string,
}
use mmorpg_game_server.Base.Frame.{
  Outcome, ok, need_more, Round, done, skip, round, loop, round_fuel,
}

-- `kMagic`, `kVersion`, `kHeaderSize`, `kMaxMessageSize`, and `kServiceAny` of `ServerID`
abbrev pub gate_magic : ℕ
gate_magic = 0xC1EA

abbrev pub gate_version : ℕ
gate_version = 1

abbrev pub header_size : ℕ
header_size = 32

abbrev pub max_message_size : ℕ
max_message_size = 10 * 1024 * 1024

abbrev pub service_any : ℕ
service_any = 0

-- `Header`
pub record Header : Type 0 where
  pub retr_flag : ℕ
  pub msg_type : ℕ
  pub module_id : ℕ
  pub method_id : ℕ
  pub seq : ℕ
  pub player_id : ℕ
  pub total_len : ℕ
  pub src_service : ℕ
  pub dst_service : ℕ

pub make_header : ℕ → ℕ → ℕ → ℕ → ℕ → ℕ → ℕ → Header
make_header msg_type module_id method_id seq player_id src_service dst_service = record {
  retr_flag = 0;
  msg_type = msg_type;
  module_id = module_id;
  method_id = method_id;
  seq = seq;
  player_id = player_id;
  total_len = 0;
  src_service = src_service;
  dst_service = dst_service;
}

-- The 32 bytes of `hdr`, in order of their offsets.
pub header_bytes : Header → ℕ → Bytes
header_bytes h total_len =
    put_be 2 gate_magic
    ++ (put_be 2 gate_version
        ++ (h.msg_type
            ∷ h.retr_flag
            ∷ (put_be 2 h.module_id
                ++ (put_be 2 h.method_id
                    ++ (put_be 8 h.seq
                        ++ (put_be 8 h.player_id
                            ++ (put_be 4 total_len ++ (h.src_service ∷ h.dst_service ∷ []))))))))

-- `uint32_t totalLen`
abbrev pub total_length : Bytes → ℕ
total_length body = (header_size + length body) % 2 ^ 32

-- `if (!body.empty()) out.append(body.data(), body.size())`
pub append_body : Buffer → Bytes → Buffer
append_body out [] = out
append_body out (x ∷ xs) = append out (x ∷ xs)

pub encode_frame : Buffer → Header → Bytes → Buffer
unfolding append_body
encode_frame out h body = append_body (append out (header_bytes h (total_length body))) body

-- The fields are read off one by one; the header in front was checked.
pub consume : ℕ → Buffer → Round Header
consume total_len b0 =
    let (magic, b1) = read_uint 2 b0 in
    let (version, b2) = read_uint 2 b1 in
    let (msg_type, b3) = read_uint 1 b2 in
    let (retr_flag, b4) = read_uint 1 b3 in
    let (module_id, b5) = read_uint 2 b4 in
    let (method_id, b6) = read_uint 2 b5 in
    let (seq, b7) = read_uint 8 b6 in
    let (player_id, b8) = read_uint 8 b7 in
    let (length_field, b9) = read_uint 4 b8 in
    let (src_service, b10) = read_uint 1 b9 in
    let (dst_service, b11) = read_uint 1 b10 in
    let (body, b12) = read_as_string b11 (total_len - header_size) in
    if ltb (readable_bytes b11) (total_len - header_size)
    then done need_more b11
    else done
        (ok
          (record {
            retr_flag = retr_flag;
            msg_type = msg_type;
            module_id = module_id;
            method_id = method_id;
            seq = seq;
            player_id = player_id;
            total_len = total_len;
            src_service = src_service;
            dst_service = dst_service;
          })
          body)
        b12

-- The rest of a round, once the buffer starts with the magic number. `expected` is the service
-- that decodes.
pub candidate : ℕ → ℕ → Buffer → Round Header
candidate expected resync b =
    let bytes = readable b in
    let total_len = get_be 0 (take 4 (drop 26 bytes)) in
    if not (get_be 0 (take 2 (drop 2 bytes)) == gate_version)
    then skip resync b
    else if ltb total_len header_size || ltb max_message_size total_len
    then skip resync b
    else if not (expected == service_any) && not (get_or bytes 31 0 == expected)
    then skip resync b
    else if ltb (readable_bytes b) total_len
    then done need_more b
    else consume total_len b

-- `none` means that the fuel ran out, which `RoundTrip.decode_frame_returns` excludes.
pub decode_frame : ℕ → Buffer → Option (Outcome Header × Buffer)
decode_frame expected b = loop (round gate_magic header_size (candidate expected)) round_fuel 0 b
