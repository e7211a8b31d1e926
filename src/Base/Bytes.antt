-- ===== src/Base/Bytes.antt =====
-- The loops by which proto.cc, clientProto.cc and gatewayPlayer.h write integers to byte strings
-- and read them back, and the network order of utils.h. A byte is a number below 256.
pub mod RoundTrip
use mmorpg_game_server.Common.{
  ℕ, zero, suc, ◌+◌, ◌-◌, ◌*◌, ◌/◌, ◌%◌, ◌^◌, ◌≤◌, ◌<◌, min, ◌≡◌, refl, sym, ap, ◌∙◌, ◌≢◌, ◌⊎◌, inl,
  inr, ◌↔◌, Bool, true, false, ◌&&◌, ◌||◌, not, Option, none, some, List, [], ◌∷◌, ◌++◌, map,
  append-nil, append_assoc, arith, ltb, leb, ◌==◌, if◌then◌else◌, Bool-cases, Option-cases, ==-refl,
  ltb→lt, not_ltb→le, ==→eq, length, get_or, take, drop, replicate, retain, length-append,
  length-take, length-drop, length-replicate, take_all, drop_all, take-length-append,
  drop-length-append, drop-drop, drop-take, take-take, take-append-drop, take-append_le,
  drop-append_le, length-retain-le, All, All-append,
}

abbrev pub Bytes : Type 0
Bytes = List ℕ

abbrev pub IsByte : ℕ → Type 0
IsByte b = b < 256

-- `for (i = 0; i < n; ++i) s.push_back(char((v >> (8 * i)) & 255))`, over the rounds left, the
-- index and the value: `GatewayPlayer::Put`, `AppendLE`, `ClientPutU32` and `ClientPutU64`.
put_loop : ℕ → ℕ → ℕ → Bytes
put_loop zero i v = []
put_loop (suc rounds) i v = (v / 2 ^ (8 * i) % 256) ∷ put_loop rounds (i + 1) v

unfoldable pub put_le : ℕ → ℕ → Bytes
unfolding put_loop
put_le n v = put_loop n 0 v

-- `for (i = 0; i < n; ++i) v |= uint64_t(uint8_t(s[pos + i])) << (8 * i)`: `GatewayPlayer::Get`,
-- `ReadLE`, and the bodies of `ClientGetU32` and `ClientGetU64`. The bytes lie in disjoint bits,
-- so the `|` is a sum.
get_loop : ℕ → ℕ → Bytes → ℕ → ℕ → ℕ
get_loop zero i s position v = v
get_loop (suc rounds) i s position v =
    get_loop rounds (i + 1) s position (v + get_or s (position + i) 0 * 2 ^ (8 * i))

unfoldable pub get_le : Bytes → ℕ → ℕ → ℕ
unfolding get_loop
get_le s position n = get_loop n 0 s position 0

-- `hostNToNet` followed by the copy of the value's memory: the bytes in network order.
unfoldable pub put_be : ℕ → ℕ → Bytes
put_be zero v = []
put_be (suc n) v = put_be n (v / 256) ++ (v % 256) ∷ []

-- The copy into a value's memory followed by `netToHostN`.
unfoldable pub get_be : ℕ → Bytes → ℕ
get_be v [] = v
get_be v (b ∷ bs) = get_be (v * 256 + b) bs
