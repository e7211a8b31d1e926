-- ===== src/Base/ClientFrame.antt =====
-- The frames between clients and the gateway (zone_common/base/clientProto.h and clientProto.cc):
-- a header of 32 bytes in network order, and the body.
pub mod RoleName
pub mod RoundTrip
pub mod Stream
mod Tests
use mmorpg_game_server.Common.{
  ℕ, zero, suc, ◌+◌, ◌-◌, ◌*◌, ◌/◌, ◌%◌, ◌^◌, ◌≤◌, ◌<◌, min, ◌≡◌, refl, sym, ap, ◌∙◌, ◌≢◌, ◌⊎◌, inl,
  inr, ◌↔◌, Bool, true, false, ◌&&◌, ◌||◌, not, Option, none, some, List, [], ◌∷◌, ◌++◌, map,
  append-nil, append_assoc, arith, ltb, leb, ◌==◌, if◌then◌else◌, Bool-cases, Option-cases, ==-refl,
  ltb→lt, not_ltb→le, ==→eq, length, get_or, take, drop, replicate, retain, length-append,
  length-take, length-drop, length-replicate, take_all, drop_all, take-length-append,
  drop-length-append, drop-drop, drop-take, take-take, take-append-drop, take-append_le,
  drop-append_le, length-retain-le, All, All-append,
}
use Prim.Native.Nat.{bit_and}
use mmorpg_game_server.Base.Bytes.{Bytes, put_be, get_be}
use mmorpg_game_server.Base.Buffer.{
  Buffer, readable, readable_bytes, retrieve, append, read_uint, read_as_string,
}
use mmorpg_game_server.Base.Frame.{
  Outcome, ok, need_more, error, Round, done, skip, round, loop, round_fuel,
}

-- `kClientMagic`, `kClientVersion`, `kRoleNameSize`, `kClientHeaderSize`, `kMaxClientFrameSize`
abbrev pub client_magic : ℕ
client_magic = 0xC1EB

abbrev pub client_version : ℕ
client_version = 2

abbrev pub role_name_size : ℕ
role_name_size = 12

abbrev pub client_header_size : ℕ
client_header_size = 32

abbrev pub max_client_frame_size : ℕ
max_client_frame_size = 64 * 1024

-- `ClientHeader`. Any byte may be cast to `ClientKind`, so the kind is a number.
pub record ClientHeader : Type 0 where
  pub kind : ℕ
  pub module_id : ℕ
  pub method_id : ℕ
  pub request_id : ℕ
  pub total_len : ℕ
  pub role_name : Bytes

-- The length of a UTF-8 sequence by its first byte, 0 where none begins so.
pub sequence_length : ℕ → ℕ
sequence_length c =
    if ltb c 0x80
    then 1
    else if leb 0xc2 c && leb c 0xdf
    then 2
    else if leb 0xe0 c && leb c 0xef
    then 3
    else if leb 0xf0 c && leb c 0xf4
    then 4
    else 0

-- `(c & 0xc0) == 0x80`
abbrev pub is_continuation : ℕ → Bool
is_continuation c = bit_and c 0xc0 == 0x80

pub all_continuations : Bytes → Bool
all_continuations [] = true
all_continuations (c ∷ cs) = is_continuation c && all_continuations cs

-- The second bytes that would encode an overlong form, a surrogate, or more than U+10FFFF.
pub bad_second : ℕ → ℕ → Bool
bad_second c second =
    (c == 0xe0 && ltb second 0xa0)
    || ((c == 0xed && leb 0xa0 second)
        || ((c == 0xf0 && ltb second 0x90) || (c == 0xf4 && leb 0x90 second)))

-- One round of the loop of `ValidRoleName`, with the byte at `i`, its sequence's length `n` and
-- the bytes behind `i`.
sequence_ok : ℕ → ℕ → Bytes → Bool
unfolding all_continuations bad_second
sequence_ok c n rest =
    if ltb c 0x20 || c == 0x7f
    then false
    else if n == 0
    then false
    else if ltb (length rest + 1) n
    then false
    else if not (all_continuations (take (n - 1) rest))
    then false
    else not (ltb 1 n && bad_second c (get_or rest 0 0))

-- The loop, on fuel: each round passes a byte at least, so the length is enough.
valid_characters : ℕ → Bytes → Bool
unfolding sequence_ok sequence_length
valid_characters fuel [] = true
valid_characters zero (c ∷ rest) = false
valid_characters (suc fuel) (c ∷ rest) =
    let later = valid_characters fuel (drop (sequence_length c - 1) rest) in
    if sequence_ok c (sequence_length c) rest then later else false

pub valid_role_name : Bytes → Bool
valid_role_name name =
    if ltb role_name_size (length name) then false else valid_characters (length name) name

-- The role name in its field, zero-filled.
pub pad : Bytes → Bytes
pad name = name ++ replicate (role_name_size - length name) 0

-- The 32 bytes of `hdr`, in order of their offsets.
pub header_bytes : ClientHeader → ℕ → Bytes
header_bytes h total_len =
    put_be 2 client_magic
    ++ (client_version
        ∷ h.kind
        ∷ (put_be 2 h.module_id
            ++ (put_be 2 h.method_id
                ++ (put_be 8 h.request_id ++ (put_be 4 total_len ++ pad h.role_name)))))

-- `uint32_t totalLen`
abbrev pub total_length : Bytes → ℕ
total_length body = (client_header_size + length body) % 2 ^ 32

-- `if (!body.empty()) out.append(body.data(), body.size())`
pub append_body : Buffer → Bytes → Buffer
append_body out [] = out
append_body out (x ∷ xs) = append out (x ∷ xs)

-- `none` is the exception `std::invalid_argument`.
pub encode_client_frame : Buffer → ClientHeader → Bytes → Option Buffer
unfolding append_body
encode_client_frame out h body =
    if not (valid_role_name h.role_name)
    then none
    else some (append_body (append out (header_bytes h (total_length body))) body)

-- `while (nameLen < kRoleNameSize && name[nameLen] != '\0') ++nameLen`
pub name_of : Bytes → Bytes
name_of [] = []
name_of (c ∷ cs) = let rest = name_of cs in if c == 0 then [] else c ∷ rest

pub all_zero : Bytes → Bool
all_zero [] = true
all_zero (c ∷ cs) = c == 0 && all_zero cs

-- The name's field is padded by zeros and holds a valid name.
pub field_ok : Bytes → Bool
unfolding name_of all_zero
field_ok field = all_zero (drop (length (name_of field)) field) && valid_role_name (name_of field)

-- The fields are read off one by one; the header in front was checked.
pub consume : ℕ → Bytes → Buffer → Round ClientHeader
consume total_len role_name b0 =
    let (magic, b1) = read_uint 2 b0 in
    let (version, b2) = read_uint 1 b1 in
    let (kind, b3) = read_uint 1 b2 in
    let (module_id, b4) = read_uint 2 b3 in
    let (method_id, b5) = read_uint 2 b4 in
    let (request_id, b6) = read_uint 8 b5 in
    let (length_field, b7) = read_uint 4 b6 in
    let b8 = retrieve b7 role_name_size in
    let (body, b9) = read_as_string b8 (total_len - client_header_size) in
    if ltb (readable_bytes b8) (total_len - client_header_size)
    then done need_more b8
    else done
        (ok
          (record {
            kind = kind;
            module_id = module_id;
            method_id = method_id;
            request_id = request_id;
            total_len = total_len;
            role_name = role_name;
          })
          body)
        b9

-- The rest of a round, once the buffer starts with the magic number.
pub candidate : ℕ → Buffer → Round ClientHeader
candidate resync b =
    let bytes = readable b in
    let total_len = get_be 0 (take 4 (drop 16 bytes)) in
    let field = take role_name_size (drop 20 bytes) in
    if not (get_or bytes 2 0 == client_version)
    then skip resync b
    else if ltb total_len client_header_size || ltb max_client_frame_size total_len
    then skip resync b
    else if ltb (readable_bytes b) total_len
    then done need_more b
    else if not (field_ok field)
    then done error (retrieve b 2)
    else consume total_len (name_of field) b

-- `none` means that the fuel ran out, which `Decode.decode_client_frame_returns` excludes.
pub decode_client_frame : Buffer → Option (Outcome ClientHeader × Buffer)
decode_client_frame b = loop (round client_magic client_header_size candidate) round_fuel 0 b
