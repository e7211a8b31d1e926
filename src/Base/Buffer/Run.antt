-- ===== src/Base/Buffer/Run.antt =====
-- Histories of calls on a buffer, and the string of bytes that it stands for.
use mmorpg_game_server.Common.{
  ℕ, ◌≡◌, refl, sym, ap, ◌⊎◌, inl, inr, Option, none, some, List, [], ◌∷◌, ◌++◌, leb, if◌then◌else◌,
  Bool-cases, length, take, drop,
}
use mmorpg_game_server.Base.Bytes.{Bytes}
use mmorpg_game_server.Base.Buffer.Content.{IsValid, length-readable}
use mmorpg_game_server.Base.Buffer.Refine.{
  Holds, append_refines, prepend_refines, retrieve_refines, read_as_string_refines, read_fd_refines,
}
use mmorpg_game_server.Base.Buffer.{
  Buffer, readable, readable_bytes, append, prepend, retrieve, try_retrieve, read_as_string,
  read_fd, write_fd,
}

-- One call on a buffer. `receives` and `sends` carry what the kernel answered, `none` for an error.
pub data Op : Type 0 where
  appends prepends : Bytes → Op
  reads retrieves : ℕ → Op
  receives : Option Bytes → Op
  sends : Option ℕ → Op

unfoldable with_out : Bytes → Option Buffer → Option (Bytes × Buffer)
with_out out none = none
with_out out (some b) = some (out, b)

-- The bytes that a call hands out, and the buffer behind it; `none` where an assert aborts.
-- `send` took the bytes from the front.
pub step : Buffer → Op → Option (Bytes × Buffer)
step b (appends src) = some ([], append b src)
step b (prepends src) = some ([], prepend b src)
step b (reads len) = some (read_as_string b len)
step b (retrieves len) = with_out [] (try_retrieve b len)
step b (receives answer) = some ([], read_fd b answer)
step b (sends none) = with_out [] (write_fd b none)
step b (sends (some n)) = with_out (take n (readable b)) (write_fd b (some n))

pub run : Buffer → List Op → Option (List Bytes)
run b [] = some []
run b (op ∷ ops) = elim (step b op) [
  | none ↦ none
  | some (out, b') ↦ elim (run b' ops) [ none ↦ none | some outs ↦ some (out ∷ outs) ]
]

-- The same calls on a plain string of bytes: what a buffer is meant to be. No more bytes than
-- there are may be skipped or sent.
unfoldable pub spec_step : Bytes → Op → Option (Bytes × Bytes)
spec_step xs (appends src) = some ([], xs ++ src)
spec_step xs (prepends src) = some ([], src ++ xs)
spec_step xs (reads len) = some (take len xs, drop len xs)
spec_step xs (retrieves len) = if leb len (length xs) then some ([], drop len xs) else none
spec_step xs (receives none) = some ([], xs)
spec_step xs (receives (some received)) = some ([], xs ++ received)
spec_step xs (sends none) = some ([], xs)
spec_step xs (sends (some n)) = if leb n (length xs) then some (take n xs, drop n xs) else none

unfoldable pub spec_run : Bytes → List Op → Option (List Bytes)
spec_run xs [] = some []
spec_run xs (op ∷ ops) = elim (spec_step xs op) [
  | none ↦ none
  | some (out, xs') ↦ elim (spec_run xs' ops) [ none ↦ none | some outs ↦ some (out ∷ outs) ]
]

-- Both abort, or both hand out the same bytes and the buffer then holds the string.
abbrev SameStep : Option (Bytes × Buffer) → Option (Bytes × Bytes) → Type 0
SameStep x y =
    ((x ≡ none) × (y ≡ none))
    ⊎ ((out : Bytes) × (b : Buffer) × (xs : Bytes) × (x ≡ some (out, b))
        × (y ≡ some (out, xs))
        × Holds b xs)

try_retrieve-SameStep :
    (b : Buffer) (n : ℕ) (out : Bytes)
    → IsValid b
    → SameStep
        (with_out out (try_retrieve b n))
        (if leb n (length (readable b)) then some (out, drop n (readable b)) else none)
unfolding try_retrieve with_out
try_retrieve-SameStep b n out v = elim (Bool-cases (leb n (readable_bytes b))) [
  | inl c ↦
      rw (try_retrieve, length-readable b v, c)
        (inr (out, retrieve b n, drop n (readable b), refl, refl, retrieve_refines b n v))
  | inr c ↦ rw (try_retrieve, length-readable b v, c) (inl (refl, refl))
]

step_refines : (b : Buffer) (op : Op) → IsValid b → SameStep (step b op) (spec_step (readable b) op)
unfolding step spec_step write_fd with_out
step_refines b (appends src) v = inr (_, _, _, refl, refl, append_refines b src v)
step_refines b (prepends src) v = inr (_, _, _, refl, refl, prepend_refines b src v)
step_refines b (reads len) v =
    let r = read_as_string_refines b len v in
    inr (
      (read_as_string b len).0,
      (read_as_string b len).1,
      drop len (readable b),
      refl,
      ap (λ out. some (out, drop len (readable b))) (sym r.0),
      r.1,
    )
step_refines b (retrieves len) v = try_retrieve-SameStep b len [] v
step_refines b (receives none) v =
    inr (_, _, _, refl, refl, unfold read_fd in record { valid = v; content = refl })
step_refines b (receives (some received)) v =
    inr (_, _, _, refl, refl, (read_fd_refines b received v).0)
step_refines b (sends none) v = inr (_, _, _, refl, refl, record { valid = v; content = refl })
step_refines b (sends (some n)) v = try_retrieve-SameStep b n (take n (readable b)) v

-- No sequence of calls tells a valid buffer from a plain string of bytes: whatever is appended,
-- prepended, received, read, skipped and sent, in any order, the bytes handed out are the same,
-- and the calls abort exactly where more bytes are skipped or sent than the string has.
pub run_refines : (b : Buffer) (ops : List Op) → IsValid b → run b ops ≡ spec_run (readable b) ops
unfolding run spec_run
run_refines b [] v = refl
run_refines b (op ∷ ops) v = elim (step_refines b op v) [
  | inl (x, y) ↦ rw (run, spec_run, x, y) refl
  | inr (out, b', xs, x, y, h) ↦
      rw (run, spec_run, x, y, run_refines b' ops h.valid, h.content) refl
]
