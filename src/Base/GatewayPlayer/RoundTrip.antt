-- ===== src/Base/GatewayPlayer/RoundTrip.antt =====
-- Packing and unpacking a player binding undo one another.
use mmorpg_game_server.Common.{◌≤◌, ◌≡◌, refl, true, some, arith, length, drop, All}
use mmorpg_game_server.Base.Bytes.{Bytes, IsByte, put_le, get_le}
use mmorpg_game_server.Base.Bytes.RoundTrip.{get_le-put_le, put_le-get_le, join}
use mmorpg_game_server.Base.GatewayPlayer.{
  ClientData, Fits, header_size, magic, version, valid, pack, parsed, unpack,
}

module _ (d : ClientData) (payload : Bytes) where
  size-pack : header_size ≤ length (pack d payload)
  unfolding pack put_le
  size-pack = omega arith

  drop-pack : drop header_size (pack d payload) ≡ payload
  unfolding pack put_le
  drop-pack = refl

  magic-pack : get_le (pack d payload) 0 2 ≡ magic
  unfolding pack put_le
  magic-pack = get_le-put_le 2 0 magic (pack d payload) refl (omega arith) (omega arith)

  version-pack : get_le (pack d payload) 2 2 ≡ version
  unfolding pack put_le
  version-pack = get_le-put_le 2 2 version (pack d payload) refl (omega arith) (omega arith)

  parsed-pack : Fits d → parsed (pack d payload) ≡ d
  unfolding parsed pack put_le
  parsed-pack f = λ i. record {
    player_id = get_le-put_le 8 4 d.player_id body refl (omega arith) f.player_id i;
    client_session = get_le-put_le 8 12 d.client_session body refl (omega arith) f.client_session i;
    client_epoch = get_le-put_le 4 20 d.client_epoch body refl (omega arith) f.client_epoch i;
    gateway_id = get_le-put_le 4 24 d.gateway_id body refl (omega arith) f.gateway_id i;
    scene_id = get_le-put_le 4 28 d.scene_id body refl (omega arith) f.scene_id i;
  }
    where
      body : Bytes
      body = pack d payload

  -- A valid binding within the field widths is unpacked as it was, with whatever payload follows it.
  pub unpack-pack : Fits d → valid d ≡ true → unpack (pack d payload) ≡ some (d, payload)
  unfolding unpack
  unpack-pack f v =
      rw (parsed-pack f, drop-pack, magic-pack, version-pack, v) (ground (arith, size-pack))

pack-parsed :
    (s : Bytes)
    → header_size ≤ length s
    → All IsByte s
    → get_le s 0 2 ≡ magic
    → get_le s 2 2 ≡ version
    → pack (parsed s) (drop header_size s) ≡ s
unfolding pack parsed
pack-parsed s h bytes m v = rw (
  ← m,
  ← v,
  put_le-get_le 2 0 s (omega arith) bytes,
  put_le-get_le 2 2 s (omega arith) bytes,
  put_le-get_le 8 4 s (omega arith) bytes,
  put_le-get_le 8 12 s (omega arith) bytes,
  put_le-get_le 4 20 s (omega arith) bytes,
  put_le-get_le 4 24 s (omega arith) bytes,
  put_le-get_le 4 28 s (omega arith) bytes,
  join 4 28 32 s refl,
  join 4 24 28 s refl,
  join 4 20 24 s refl,
  join 8 12 20 s refl,
  join 8 4 12 s refl,
  join 2 2 4 s refl,
  join 2 0 2 s refl,
)

record Checked (s : Bytes) (d : ClientData) (payload : Bytes) : Type 0 where
  long : header_size ≤ length s
  magic_ok : get_le s 0 2 ≡ magic
  version_ok : get_le s 2 2 ≡ version
  is_valid : valid (parsed s) ≡ true
  same : parsed s ≡ d
  rest : drop header_size s ≡ payload

unpack-Checked :
    (s : Bytes) (d : ClientData) (payload : Bytes)
    → unpack s ≡ some (d, payload)
    → Checked s d payload
unfolding unpack
unpack-Checked s d payload e = record {
  long = ground arith;
  magic_ok = ground arith;
  version_ok = ground arith;
  is_valid = ground arith;
  same = ground arith;
  rest = ground arith;
}

-- What is unpacked from a string of bytes is a valid binding, and packing it with the payload
-- gives back the string: no other string yields them.
pub pack-unpack :
    (s payload : Bytes) (d : ClientData)
    → All IsByte s
    → unpack s ≡ some (d, payload)
    → (valid d ≡ true) × (pack d payload ≡ s)
pack-unpack s payload d bytes e =
    let c = unpack-Checked s d payload e in
    (
      rw (← c.same) c.is_valid,
      rw (← c.same, ← c.rest) (pack-parsed s c.long bytes c.magic_ok c.version_ok),
    )
