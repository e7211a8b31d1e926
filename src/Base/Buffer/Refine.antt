-- ===== src/Base/Buffer/Refine.antt =====
-- The refinement of a valid buffer: each operation on its indices and storage is an operation on
-- the string of its readable bytes.
use mmorpg_game_server.Common.{
  [], ℕ, ◌+◌, ◌-◌, ◌≤◌, ◌<◌, ◌≡◌, refl, sym, ap, ◌∙◌, inl, inr, none, some, ◌++◌, append_assoc,
  arith, ltb, leb, if◌then◌else◌, Bool-cases, ltb→lt, not_ltb→le, length, take, drop, replicate,
  length-append, length-take, length-drop, length-replicate, take_all, drop_all, drop-drop,
  drop-take, take-append-drop, take-append_le, drop-append_le,
}
use mmorpg_game_server.Base.Bytes.{Bytes}
use mmorpg_game_server.Base.Buffer.Content.{
  IsValid, length-write_at, take-drop-write_at, take-drop-write_at_front, length-readable,
}
use mmorpg_game_server.Base.Buffer.{
  Buffer, create, cheap_prepend, write_at, readable, readable_bytes, writeable_bytes, prepend_bytes,
  retrieve, grow, compact, ensure_writeable, shift_to, copy_in, has_written, append, ensure_prepend,
  copy_before, prepend, read_as_string, cut, read_fd,
}

-- A valid buffer refines the string of its readable bytes.
pub create-empty : readable create ≡ []
unfolding create
create-empty = refl

pub create-IsValid : IsValid create
unfolding create
create-IsValid = omega arith

pub retrieve-IsValid : (b : Buffer) (len : ℕ) → IsValid b → IsValid (retrieve b len)
unfolding retrieve
retrieve-IsValid b len v = ground arith

-- `retrieve` drops bytes from the front; past the end it empties the buffer.
pub readable-retrieve :
    (b : Buffer) (len : ℕ) → IsValid b → readable (retrieve b len) ≡ drop len (readable b)
unfolding retrieve
readable-retrieve b len v = elim (Bool-cases (ltb len (readable_bytes b))) [
  | inl e ↦ rw e (
      let h = ltb→lt len (readable_bytes b) e in
      ap (λ k. take k (drop (b.read_index + len) b.storage)) (omega arith)
      ∙ ap (take (readable_bytes b - len)) (sym (drop-drop len b.read_index _ b.storage refl))
      ∙ sym (
          drop-take len (readable_bytes b - len) (readable_bytes b) (drop b.read_index b.storage)
            (omega arith)))
  | inr e ↦ rw e (
      sym (
        drop_all len (readable b)
          (omega (arith, not_ltb→le len (readable_bytes b) e, length-readable b v))))
]

-- After `ensureWriteable(len)` there is room for `len` bytes, and the readable bytes are the same.
record Prepared (b b' : Buffer) (len : ℕ) : Type 0 where
  valid : IsValid b'
  room : b'.write_index + len ≤ length b'.storage
  same : readable b' ≡ readable b

grow-Prepared :
    (b : Buffer) (len : ℕ) → IsValid b → writeable_bytes b < len → Prepared b (grow b len) len
unfolding grow
grow-Prepared b len v h = record {
  valid = record { ordered = v.ordered; stored = omega (arith, size); front = omega (arith, size) };
  room = omega (arith, size);
  same = rw (drop-append_le b.read_index b.storage (replicate extra 0) (omega arith)) (
      take-append_le (readable_bytes b) (drop b.read_index b.storage) (replicate extra 0)
        (omega (arith, length-drop {0} b.read_index b.storage)));
}
  where
    extra : ℕ
    extra = b.write_index + len - length b.storage

    size : length (b.storage ++ replicate extra 0) ≡ length b.storage + extra
    size = omega (
      arith,
      length-append {0} b.storage (replicate extra 0),
      length-replicate {0} {A = ℕ} extra 0,
    )

compact-Prepared :
    (b : Buffer) (len : ℕ)
    → IsValid b
    → len + cheap_prepend ≤ writeable_bytes b + prepend_bytes b
    → Prepared b (compact b) len
unfolding compact
compact-Prepared b len v h = record {
  valid = record {
    ordered = omega arith;
    stored = omega (arith, size);
    front = omega (arith, size);
  };
  room = omega (arith, size);
  same =
      take-drop-write_at b.storage (readable b) cheap_prepend 0 cheap_prepend _ refl
        (omega (arith, length-readable b v)) (omega (arith, length-readable b v));
}
  where
    size : length (write_at b.storage cheap_prepend (readable b)) ≡ length b.storage
    size = length-write_at b.storage cheap_prepend (readable b)

ensure_writeable-Prepared :
    (b : Buffer) (len : ℕ) → IsValid b → Prepared b (ensure_writeable b len) len
unfolding ensure_writeable
ensure_writeable-Prepared b len v = elim (Bool-cases (ltb (writeable_bytes b) len)) [
  | inr e ↦ rw e (
      let h = not_ltb→le (writeable_bytes b) len e in
      record { valid = v; room = omega arith; same = refl })
  | inl e ↦ elim (Bool-cases (ltb (writeable_bytes b + prepend_bytes b) (len + cheap_prepend))) [
    | inl f ↦ rw (e, f) (grow-Prepared b len v (ltb→lt _ _ e))
    | inr f ↦ rw (e, f) (compact-Prepared b len v (not_ltb→le _ _ f))
  ]
]

-- What an operation promises: the result is valid, and holds these bytes.
pub record Holds (b : Buffer) (bytes : Bytes) : Type 0 where
  pub valid : IsValid b
  pub content : readable b ≡ bytes

-- The copy goes where room was made.
copy_in-Holds :
    (b : Buffer) (src : Bytes)
    → IsValid b
    → b.write_index + length src ≤ length b.storage
    → Holds (has_written (copy_in b src) (length src)) (readable b ++ src)
unfolding copy_in
copy_in-Holds b src v room = record {
  valid = record {
    ordered = omega arith;
    stored = omega (arith, size);
    front = omega (arith, size);
  };
  content =
      take-drop-write_at b.storage src b.read_index (readable_bytes b) b.write_index _ (omega arith)
        (omega arith) room;
}
  where
    size : length (write_at b.storage b.write_index src) ≡ length b.storage
    size = length-write_at b.storage b.write_index src

-- `append` keeps a valid buffer valid and adds the bytes behind the readable ones, whether it grows
-- the storage, moves the bytes to the front, or has room.
pub append_refines :
    (b : Buffer) (src : Bytes) → IsValid b → Holds (append b src) (readable b ++ src)
unfolding append
append_refines b src v =
    let p = ensure_writeable-Prepared b (length src) v in
    rw (p.same) at (copy_in-Holds (ensure_writeable b (length src)) src p.valid p.room)

-- After `ensurePrepend(len)` there is room in front.
record Shifted (b b' : Buffer) (len : ℕ) : Type 0 where
  valid : IsValid b'
  room : len ≤ b'.read_index
  same : readable b' ≡ readable b

shift_to-Shifted :
    (b : Buffer) (kept len : ℕ)
    → IsValid b
    → len ≤ kept
    → cheap_prepend ≤ kept
    → Shifted b (shift_to b kept) len
unfolding shift_to
shift_to-Shifted b kept len v h k = record {
  valid = record {
    ordered = omega arith;
    stored = omega (arith, size);
    front = omega (arith, size);
  };
  room = h;
  same =
      take-drop-write_at (replicate fresh 0) (readable b) kept 0 kept _ (omega arith)
        (omega (arith, length-readable b v))
        (omega (arith, length-readable b v, length-replicate {0} {A = ℕ} fresh 0));
}
  where
    fresh : ℕ
    fresh = kept + readable_bytes b

    size : length (write_at (replicate fresh 0) kept (readable b)) ≡ fresh
    size = length-write_at (replicate fresh 0) kept (readable b) ∙ length-replicate fresh 0

ensure_prepend-Shifted : (b : Buffer) (len : ℕ) → IsValid b → Shifted b (ensure_prepend b len) len
unfolding ensure_prepend
ensure_prepend-Shifted b len v = elim (Bool-cases (leb len (prepend_bytes b))) [
  | inl e ↦ rw e (record { valid = v; room = ground arith; same = refl })
  | inr e ↦ rw e (
      shift_to-Shifted b (if ltb cheap_prepend len then len else cheap_prepend) len v (ground arith)
        (ground arith))
]

copy_before-Holds :
    (b : Buffer) (src : Bytes)
    → IsValid b
    → length src ≤ b.read_index
    → Holds (copy_before b src) (src ++ readable b)
unfolding copy_before
copy_before-Holds b src v room = record {
  valid = record {
    ordered = omega arith;
    stored = omega (arith, size);
    front = omega (arith, size);
  };
  content =
      take-drop-write_at_front b.storage src start (readable_bytes b) b.read_index _ (omega arith)
        (omega arith) (omega arith);
}
  where
    start : ℕ
    start = b.read_index - length src

    size : length (write_at b.storage start src) ≡ length b.storage
    size = length-write_at b.storage start src

-- `prepend` keeps a valid buffer valid and puts the bytes in front of the readable ones, also where
-- less than their number was left in front.
pub prepend_refines :
    (b : Buffer) (src : Bytes) → IsValid b → Holds (prepend b src) (src ++ readable b)
unfolding prepend
prepend_refines b src v =
    let p = ensure_prepend-Shifted b (length src) v in
    rw (p.same) at (copy_before-Holds (ensure_prepend b (length src)) src p.valid p.room)

pub retrieve_refines :
    (b : Buffer) (len : ℕ) → IsValid b → Holds (retrieve b len) (drop len (readable b))
retrieve_refines b len v = record {
  valid = retrieve-IsValid b len v;
  content = readable-retrieve b len v;
}

drop-cut :
    (b : Buffer) (len : ℕ) → IsValid b → drop (cut b len) (readable b) ≡ drop len (readable b)
drop-cut b len v = elim (Bool-cases (ltb (readable_bytes b) len)) [
  | inr e ↦ rw e
  | inl e ↦ rw e (
      drop_all _ (readable b) (omega (arith, length-readable b v))
      ∙ sym (
          drop_all len (readable b)
            (omega (arith, length-readable b v, ltb→lt (readable_bytes b) len e))))
]

take-cut :
    (b : Buffer) (len : ℕ) → IsValid b → take (cut b len) (readable b) ≡ take len (readable b)
take-cut b len v = elim (Bool-cases (ltb (readable_bytes b) len)) [
  | inr e ↦ rw e
  | inl e ↦ rw e (
      take_all _ (readable b) (omega (arith, length-readable b v))
      ∙ sym (
          take_all len (readable b)
            (omega (arith, length-readable b v, ltb→lt (readable_bytes b) len e))))
]

-- `readAsString` returns the first bytes, as many as asked for or as there are, and leaves the rest.
pub read_as_string_refines :
    (b : Buffer) (len : ℕ)
    → IsValid b
    → ((read_as_string b len).0 ≡ take len (readable b))
      × Holds (read_as_string b len).1 (drop len (readable b))
unfolding read_as_string
read_as_string_refines b len v =
    (take-cut b len v, rw (drop-cut b len v) at (retrieve_refines b (cut b len) v))

fd_parts :
    (w : ℕ) (xs received : Bytes) → (xs ++ take w received) ++ drop w received ≡ xs ++ received
fd_parts w xs received =
    append_assoc xs (take w received) (drop w received) ∙ ap (◌++◌ xs) (take-append-drop w received)

-- On a valid buffer, `readFd` adds what arrived behind the readable bytes and keeps the buffer
-- valid, also where the free end of the storage was too short and the rest went through the extra
-- block. An error changes nothing.
pub read_fd_refines :
    (b : Buffer) (received : Bytes)
    → IsValid b
    → Holds (read_fd b (some received)) (readable b ++ received) × (read_fd b none ≡ b)
unfolding read_fd copy_in
read_fd_refines b received v = (received_lem, refl)
  where
    w : ℕ
    w = writeable_bytes b

    filled :
        w ≤ length received
        → Holds
            (record (copy_in b (take w received)) { write_index = length b.storage })
            (readable b ++ take w received)
    filled h = rw (e2) at (copy_in-Holds b (take w received) v (omega (arith, e)))
      where
        e : length (take w received) ≡ w
        e = omega (arith, length-take {0} w received)

        e2 : b.write_index + length (take w received) ≡ length b.storage
        e2 = omega (arith, e)

    received_lem : Holds (read_fd b (some received)) (readable b ++ received)
    received_lem = elim (Bool-cases (ltb (length received) w)) [
      | inl e ↦ rw e (copy_in-Holds b received v (omega (arith, ltb→lt (length received) w e)))
      | inr e ↦ rw e (
          let f = filled (not_ltb→le (length received) w e) in
          rw (f.content, fd_parts w (readable b) received) at
            (append_refines
              (record (copy_in b (take w received)) { write_index = length b.storage })
              (drop w received) f.valid))
    ]
