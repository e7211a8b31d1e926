-- ===== src/Base/Frame/Read.antt =====
-- Reading the fields of a frame off the front of a buffer.
use mmorpg_game_server.Common.{
  ℕ, ◌^◌, ◌<◌, ◌≡◌, refl, sym, ◌∷◌, ◌++◌, arith, length, take-length-append, drop-length-append,
}
use mmorpg_game_server.Base.Bytes.{Bytes, put_be, get_be}
use mmorpg_game_server.Base.Bytes.RoundTrip.{length-put_be, get_be-put_be}
use mmorpg_game_server.Base.Buffer.{Buffer, readable, retrieve, read_uint}
use mmorpg_game_server.Base.Buffer.Content.{IsValid}
use mmorpg_game_server.Base.Buffer.Refine.{Holds, retrieve_refines}

-- `read_uint` takes an integer in network order off the front.
pub read_uint_lem :
    (n v : ℕ) (rest : Bytes) (b : Buffer)
    → IsValid b
    → readable b ≡ put_be n v ++ rest
    → v < 256 ^ n
    → ((read_uint n b).0 ≡ v) × Holds (read_uint n b).1 rest
unfolding read_uint
read_uint_lem n v rest b w e fits = (
  rw (e, take-length-append n (put_be n v) rest (sym (length-put_be n v))) (get_be-put_be n v fits),
  rw (e, drop-length-append n (put_be n v) rest (sym (length-put_be n v))) at
      (retrieve_refines b n w),
)

pub read_byte_lem :
    (c : ℕ) (rest : Bytes) (b : Buffer)
    → IsValid b
    → readable b ≡ c ∷ rest
    → ((read_uint 1 b).0 ≡ c) × Holds (read_uint 1 b).1 rest
unfolding read_uint get_be
read_byte_lem c rest b w e = (rw e (omega arith), rw e at (retrieve_refines b 1 w))

-- The bytes in front are dropped.
pub retrieved :
    (b : Buffer) (garbage xs : Bytes)
    → IsValid b
    → readable b ≡ garbage ++ xs
    → Holds (retrieve b (length garbage)) xs
retrieved b garbage xs w e =
    rw (e, drop-length-append (length garbage) garbage xs refl) at
      (retrieve_refines b (length garbage) w)
