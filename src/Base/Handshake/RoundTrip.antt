-- ===== src/Base/Handshake/RoundTrip.antt =====
-- Packing and unpacking a handshake undo one another.
use mmorpg_game_server.Common.{
  ◌≡◌, refl, inl, inr, true, some, arith, ◌==◌, Bool-cases, ==→eq, length, drop, length-drop,
  take_all, All,
}
use mmorpg_game_server.Base.Bytes.{Bytes, IsByte, put_le}
use mmorpg_game_server.Base.Bytes.RoundTrip.{get_le-put_le, put_le-get_le, join}
use mmorpg_game_server.Base.Handshake.{
  BackendHandshake, Fits, encoded_size, valid_backend_handshake, pack_backend_handshake, parsed,
  unpack_backend_handshake,
}

parsed-pack : (h : BackendHandshake) → Fits h → parsed (pack_backend_handshake h) ≡ h
unfolding parsed pack_backend_handshake put_le
parsed-pack h f = λ i. record {
  protocol_version =
      get_le-put_le 2 0 h.protocol_version body refl (omega arith) f.protocol_version i;
  service_id = get_le-put_le 1 2 h.service_id body refl (omega arith) f.service_id i;
  zone_id = get_le-put_le 4 3 h.zone_id body refl (omega arith) f.zone_id i;
  scene_id = get_le-put_le 4 7 h.scene_id body refl (omega arith) f.scene_id i;
  scene_incarnation =
      get_le-put_le 8 11 h.scene_incarnation body refl (omega arith) f.scene_incarnation i;
  target_gateway_id =
      get_le-put_le 4 19 h.target_gateway_id body refl (omega arith) f.target_gateway_id i;
  channel_id = get_le-put_le 4 23 h.channel_id body refl (omega arith) f.channel_id i;
}
  where
    body : Bytes
    body = pack_backend_handshake h

size-pack : (h : BackendHandshake) → length (pack_backend_handshake h) ≡ encoded_size
unfolding pack_backend_handshake put_le
size-pack h = refl

-- A valid handshake within the field widths is unpacked from its packed body as it was.
pub unpack_handshake-pack :
    (h : BackendHandshake)
    → Fits h
    → valid_backend_handshake h ≡ true
    → unpack_backend_handshake (pack_backend_handshake h) ≡ some h
unfolding unpack_backend_handshake
unpack_handshake-pack h f v = rw (size-pack h, parsed-pack h f, v)

pack-parsed :
    (body : Bytes)
    → length body ≡ encoded_size
    → All IsByte body
    → pack_backend_handshake (parsed body) ≡ body
unfolding pack_backend_handshake parsed
pack-parsed body e bytes = rw (
  put_le-get_le 2 0 body (omega arith) bytes,
  put_le-get_le 1 2 body (omega arith) bytes,
  put_le-get_le 4 3 body (omega arith) bytes,
  put_le-get_le 4 7 body (omega arith) bytes,
  put_le-get_le 8 11 body (omega arith) bytes,
  put_le-get_le 4 19 body (omega arith) bytes,
  put_le-get_le 4 23 body (omega arith) bytes,
  take_all 4 (drop 23 body) (omega (arith, length-drop {0} 23 body)),
  join 4 19 23 body refl,
  join 8 11 19 body refl,
  join 4 7 11 body refl,
  join 4 3 7 body refl,
  join 1 2 3 body refl,
  join 2 0 2 body refl,
)

-- What is unpacked from a string of bytes is a valid handshake, and the string is the 27 bytes
-- that pack it.
pub pack-unpack_handshake :
    (body : Bytes) (h : BackendHandshake)
    → All IsByte body
    → unpack_backend_handshake body ≡ some h
    → (valid_backend_handshake h ≡ true)
      × (length body ≡ encoded_size)
      × (pack_backend_handshake h ≡ body)
unfolding unpack_backend_handshake
pack-unpack_handshake body h bytes e = elim (Bool-cases (length body == encoded_size)) [
  | inr f ↦ cc (rw f at e)
  | inl f ↦ elim (Bool-cases (valid_backend_handshake (parsed body))) [
    | inr g ↦ cc (rw (f, g) at e)
    | inl g ↦
        let found : some (parsed body) ≡ some h = rw (f, g) at e in
        let same : parsed body ≡ h = cc in
        (rw (← same) g, ==→eq _ _ f, rw (← same) (pack-parsed body (==→eq _ _ f) bytes))
  ]
]
