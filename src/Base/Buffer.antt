-- ===== src/Base/Buffer.antt =====
-- zone_common/base/buffer.h and buffer.cc: the receive and send buffer of a connection.
-- Sizes and indices stay below 2 ^ 64 and are not wrapped; no subtraction of a valid buffer goes
-- below 0. The asserts of the source abort a debug build: `try_retrieve`, `retrieve_until` and
-- `write_fd` give `none` then, and `retrieve` and `read_uint` are the code behind the assert, for
-- the callers that have tested the length before.
pub mod Content
pub mod Refine
pub mod Run
mod Tests
use mmorpg_game_server.Common.{
  ℕ, zero, suc, ◌+◌, ◌-◌, ◌*◌, ◌/◌, ◌%◌, ◌^◌, ◌≤◌, ◌<◌, min, ◌≡◌, refl, sym, ap, ◌∙◌, ◌≢◌, ◌⊎◌, inl,
  inr, ◌↔◌, Bool, true, false, ◌&&◌, ◌||◌, not, Option, none, some, List, [], ◌∷◌, ◌++◌, map,
  append-nil, append_assoc, arith, ltb, leb, ◌==◌, if◌then◌else◌, Bool-cases, Option-cases, ==-refl,
  ltb→lt, not_ltb→le, ==→eq, length, get_or, take, drop, replicate, retain, length-append,
  length-take, length-drop, length-replicate, take_all, drop_all, take-length-append,
  drop-length-append, drop-drop, drop-take, take-take, take-append-drop, take-append_le,
  drop-append_le, length-retain-le, All, All-append,
}
use mmorpg_game_server.Base.Bytes.{Bytes, get_be, put_be}

-- `kCheapPrepend`
abbrev pub cheap_prepend : ℕ
cheap_prepend = 32

-- `buff_.size()` is `length storage`. The reserved capacity of the vector has no effect on the
-- contents and is left out.
pub record Buffer : Type 0 where
  pub write_index : ℕ
  pub read_index : ℕ
  pub storage : Bytes

-- `std::copy` over the front of a range, and at an index into the storage. Outside the storage
-- nothing is written; the source must not do so, and `Content.copy_in_bounds` shows that it does not.
pub overwrite : Bytes → Bytes → Bytes
overwrite [] src = []
overwrite (x ∷ xs) [] = x ∷ xs
overwrite (x ∷ xs) (y ∷ ys) = y ∷ overwrite xs ys

pub write_at : Bytes → ℕ → Bytes → Bytes
unfolding overwrite
write_at xs zero src = overwrite xs src
write_at [] (suc i) src = []
write_at (x ∷ xs) (suc i) src = x ∷ write_at xs i src

pub create : Buffer
create = record {
  write_index = cheap_prepend;
  read_index = cheap_prepend;
  storage = replicate cheap_prepend 0;
}

-- The move constructor, and the assignment from another buffer: the new buffer, and what is left
-- of `other`, whose vector the standard library leaves empty.
pub move_from : Buffer → Buffer × Buffer
move_from other =
    (other, record { write_index = cheap_prepend; read_index = cheap_prepend; storage = [] })

abbrev pub readable_bytes : Buffer → ℕ
readable_bytes b = b.write_index - b.read_index

abbrev pub writeable_bytes : Buffer → ℕ
writeable_bytes b = length b.storage - b.write_index

abbrev pub prepend_bytes : Buffer → ℕ
prepend_bytes b = b.read_index

-- The bytes from `peek()` up to `beginWrite()`.
abbrev pub readable : Buffer → Bytes
readable b = take (readable_bytes b) (drop b.read_index b.storage)

pub retrieve_all : Buffer → Buffer
retrieve_all b = record b { write_index = cheap_prepend; read_index = cheap_prepend }

-- `retrieve` behind its assert.
pub retrieve : Buffer → ℕ → Buffer
unfolding retrieve_all
retrieve b len =
    if ltb len (readable_bytes b)
    then record b { read_index = b.read_index + len }
    else retrieve_all b

-- `retrieve` with its assert, which aborts past the readable bytes.
unfoldable pub try_retrieve : Buffer → ℕ → Option Buffer
try_retrieve b len = if leb len (readable_bytes b) then some (retrieve b len) else none

-- `retrieveUntil` with its asserts; the argument is an index into the storage.
pub retrieve_until : Buffer → ℕ → Option Buffer
unfolding try_retrieve
retrieve_until b len =
    if leb b.read_index len && ltb len b.write_index
    then try_retrieve b (len - b.read_index)
    else none

-- `len` cut to what is readable
abbrev pub cut : Buffer → ℕ → ℕ
cut b len = if ltb (readable_bytes b) len then readable_bytes b else len

-- `readAsString`; `read` copies the same bytes to `dst` and returns their number.
unfoldable pub read_as_string : Buffer → ℕ → Bytes × Buffer
read_as_string b len = (take (cut b len) (readable b), retrieve b (cut b len))

pub read : Buffer → ℕ → ℕ × Bytes × Buffer
read b len = (cut b len, take (cut b len) (readable b), retrieve b (cut b len))

-- `readUint64`, `readUint32`, `readUint16` and `readUint8`, at 8, 4, 2 and 1 bytes.
unfoldable pub read_uint : ℕ → Buffer → ℕ × Buffer
unfolding get_be
read_uint n b = (get_be 0 (take n (readable b)), retrieve b n)

-- The two ways in which `ensureWriteable` makes room: `buff_.resize(writeIndex_ + len)`, which is
-- called for a larger size only, and moving the readable bytes to the front.
grow : Buffer → ℕ → Buffer
grow b len = record b {
  storage = b.storage ++ replicate (b.write_index + len - length b.storage) 0;
}

compact : Buffer → Buffer
unfolding write_at
compact b = record {
  write_index = cheap_prepend + readable_bytes b;
  read_index = cheap_prepend;
  storage = write_at b.storage cheap_prepend (readable b);
}

pub ensure_writeable : Buffer → ℕ → Buffer
unfolding grow compact
ensure_writeable b len =
    if ltb (writeable_bytes b) len
    then if ltb (writeable_bytes b + prepend_bytes b) (len + cheap_prepend)
      then grow b len
      else compact b
    else b

abbrev pub has_written : Buffer → ℕ → Buffer
has_written b len = record b { write_index = b.write_index + len }

-- The copy to `beginWrite()`.
pub copy_in : Buffer → Bytes → Buffer
unfolding write_at
copy_in b src = record b { storage = write_at b.storage b.write_index src }

pub append : Buffer → Bytes → Buffer
append b src = has_written (copy_in (ensure_writeable b (length src)) src) (length src)

pub write : Buffer → Bytes → ℕ × Buffer
write b src = (length src, append b src)

-- The readable bytes in fresh storage, behind `kept` bytes.
shift_to : Buffer → ℕ → Buffer
unfolding write_at
shift_to b kept = record {
  write_index = kept + readable_bytes b;
  read_index = kept;
  storage = write_at (replicate (kept + readable_bytes b) 0) kept (readable b);
}

-- `ensurePrepend`: room for a header in front of the readable bytes.
pub ensure_prepend : Buffer → ℕ → Buffer
unfolding shift_to
ensure_prepend b len =
    if leb len (prepend_bytes b)
    then b
    else shift_to b (if ltb cheap_prepend len then len else cheap_prepend)

-- The copy in front of the readable bytes.
pub copy_before : Buffer → Bytes → Buffer
unfolding write_at
copy_before b src = record b {
  read_index = b.read_index - length src;
  storage = write_at b.storage (b.read_index - length src) src;
}

pub prepend : Buffer → Bytes → Buffer
prepend b src = copy_before (ensure_prepend b (length src)) src

-- `prependInt64`, `prependInt32`, `prependInt16` and `prependInt8`, at 8, 4, 2 and 1 bytes.
pub prepend_int : ℕ → Buffer → ℕ → Buffer
prepend_int n b x = prepend b (put_be n x)

-- `readFd`: what `readv` returned is an argument, `none` for an error and else the bytes that it
-- scattered over the free end of the storage and the 64 KB beside it.
pub read_fd : Buffer → Option Bytes → Buffer
read_fd b none = b
read_fd b (some received) =
    if ltb (length received) (writeable_bytes b)
    then has_written (copy_in b received) (length received)
    else append
        (record (copy_in b (take (writeable_bytes b) received)) { write_index = length b.storage })
        (drop (writeable_bytes b) received)

-- `WriteFd`: what `send` returned is an argument, `none` for an error.
pub write_fd : Buffer → Option ℕ → Option Buffer
unfolding try_retrieve
write_fd b none = some b
write_fd b (some n) = try_retrieve b n
