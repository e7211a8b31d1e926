-- ===== src/Base/Frame.antt =====
-- What the two frame decoders of proto.cc and clientProto.cc share: the search for the magic number
-- and the resynchronising loop.
pub mod Loop
pub mod Read
use mmorpg_game_server.Common.{
  ℕ, zero, suc, ◌+◌, ◌-◌, ◌*◌, ◌/◌, ◌%◌, ◌^◌, ◌≤◌, ◌<◌, min, ◌≡◌, refl, sym, ap, ◌∙◌, ◌≢◌, ◌⊎◌, inl,
  inr, ◌↔◌, Bool, true, false, ◌&&◌, ◌||◌, not, Option, none, some, List, [], ◌∷◌, ◌++◌, map,
  append-nil, append_assoc, arith, ltb, leb, ◌==◌, if◌then◌else◌, Bool-cases, Option-cases, ==-refl,
  ltb→lt, not_ltb→le, ==→eq, length, get_or, take, drop, replicate, retain, length-append,
  length-take, length-drop, length-replicate, take_all, drop_all, take-length-append,
  drop-length-append, drop-drop, drop-take, take-take, take-append-drop, take-append_le,
  drop-append_le, length-retain-le, All, All-append,
}
use mathlib.Core.Option
use mmorpg_game_server.Base.Bytes.{Bytes}
use mmorpg_game_server.Base.Buffer.{Buffer, readable, readable_bytes, retrieve}

-- `DecodeStatus`, with the header and the body where it is `kOk`.
pub data Outcome {ℓ} (H : Type ℓ) : Type ℓ where
  ok : H → Bytes → Outcome H
  need_more error : Outcome H

-- How one round of the decoding loop ends: it returns, or continues with this many resyncs made.
pub data Round {ℓ} (H : Type ℓ) : Type ℓ where
  done : Outcome H → Buffer → Round H
  again : ℕ → Buffer → Round H

-- `kMaxResyncPerCall` and `kKeepTailWhenNoMagic`
abbrev pub max_resync : ℕ
max_resync = 16

abbrev pub keep_tail : ℕ
keep_tail = 1

-- `std::search` for two bytes; the caller sees the offset of the first match.
unfoldable pub search_pair : ℕ → ℕ → Bytes → Option ℕ
search_pair hi lo [] = none
search_pair hi lo (x ∷ []) = none
search_pair hi lo (x ∷ y ∷ rest) =
    let later = search_pair hi lo (y ∷ rest) in
    if x == hi && y == lo then some 0 else Option.map suc later

-- `FindMagic` and `FindClientMagic`: the offset of a magic number in the readable bytes.
pub find_magic : ℕ → Buffer → Option ℕ
unfolding search_pair
find_magic magic b =
    if ltb (readable_bytes b) 2
    then none
    else search_pair (magic / 256 % 256) (magic % 256) (readable b)

-- `Buffer::findCRLF`, as an offset from `peek()`
pub find_crlf : Buffer → Option ℕ
unfolding search_pair
find_crlf b = search_pair b'\r' b'\n' (readable b)

-- The branch without a magic number keeps one byte, which may be half of one.
pub drop_garbage : Buffer → Buffer
drop_garbage b =
    if ltb keep_tail (readable_bytes b) then retrieve b (readable_bytes b - keep_tail) else b

module _ {ℓ} {H : Type ℓ} where
  -- `SkipCurrentMagic`, the count, and `continue`.
  pub skip : ℕ → Buffer → Round H
  skip resync b =
      if ltb max_resync (resync + 1)
      then done error (retrieve b 2)
      else again (resync + 1) (retrieve b 2)

  -- The branch that moves on to a magic number further back.
  pub resync_to : (ℕ → Buffer → Round H) → ℕ → ℕ → Buffer → Round H
  resync_to candidate header_size resync b =
      if ltb max_resync resync
      then done error b
      else if ltb (readable_bytes b) header_size
      then done need_more b
      else candidate resync b

  -- One round of the loop of `DecodeFrame` and `DecodeClientFrame`. They share this part, and differ
  -- in what they do with a candidate, which starts with the magic number.
  pub round : ℕ → ℕ → (ℕ → Buffer → Round H) → ℕ → Buffer → Round H
  round magic header_size candidate resync b =
      if ltb (readable_bytes b) header_size then done need_more b else elim (find_magic magic b) [
        | none ↦ done need_more (drop_garbage b)
        | some offset ↦
            if ltb 0 offset
            then resync_to candidate header_size (resync + 1) (retrieve b offset)
            else candidate resync b
      ]

  -- The loop, on fuel; `none` means that the fuel ran out.
  pub loop : (ℕ → Buffer → Round H) → ℕ → ℕ → Buffer → Option (Outcome H × Buffer)
  loop body zero resync b = none
  loop body (suc fuel) resync b = elim (body resync b) [
    | done outcome b' ↦ some (outcome, b')
    | again resync' b' ↦ loop body fuel resync' b'
  ]

-- Each round but the last makes a resync, and the sixteenth is the last, so 17 rounds are enough.
abbrev pub round_fuel : ℕ
round_fuel = 17
