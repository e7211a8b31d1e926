-- ===== src/Base/Buffer/Content.antt =====
-- What the index arithmetic of a buffer does to its storage, and the validity that it keeps.
use mmorpg_game_server.Common.{
  ℕ, zero, suc, ◌+◌, ◌≤◌, ◌≡◌, refl, sym, ap, ◌∙◌, [], ◌∷◌, ◌++◌, append_assoc, arith, length, take,
  drop, length-append, length-take, length-drop, take-length-append, drop-length-append, drop-take,
  drop-append_le,
}
use native.Mathlib.Nat.{zero-add, suc-add}
use mmorpg_game_server.Base.Bytes.{Bytes}
use mmorpg_game_server.Base.Buffer.{
  Buffer, cheap_prepend, overwrite, write_at, readable, readable_bytes,
}

-- What a valid buffer promises: the readable bytes lie inside the storage.
pub record IsValid (b : Buffer) : Type 0 where
  pub ordered : b.read_index ≤ b.write_index
  pub stored : b.write_index ≤ length b.storage
  pub front : cheap_prepend ≤ length b.storage

length-overwrite : (xs src : Bytes) → length (overwrite xs src) ≡ length xs
unfolding overwrite
length-overwrite [] src = refl
length-overwrite (x ∷ xs) [] = refl
length-overwrite (x ∷ xs) (y ∷ ys) = ap suc (length-overwrite xs ys)

pub length-write_at : (xs : Bytes) (i : ℕ) (src : Bytes) → length (write_at xs i src) ≡ length xs
unfolding write_at
length-write_at xs zero src = length-overwrite xs src
length-write_at [] (suc i) src = refl
length-write_at (x ∷ xs) (suc i) src = ap suc (length-write_at xs i src)

-- An overwrite is the source followed by what it did not reach.
overwrite_lem :
    (xs src : Bytes) → length src ≤ length xs → overwrite xs src ≡ src ++ drop (length src) xs
unfolding overwrite
overwrite_lem [] [] h = refl
overwrite_lem [] (y ∷ ys) h = absurd (omega arith)
overwrite_lem (x ∷ xs) [] h = refl
overwrite_lem (x ∷ xs) (y ∷ ys) h = ap (◌∷◌ y) (overwrite_lem xs ys (omega arith))

pub write_at_lem :
    (xs : Bytes) (i : ℕ) (src : Bytes)
    → i + length src ≤ length xs
    → write_at xs i src ≡ take i xs ++ (src ++ drop (i + length src) xs)
unfolding write_at
write_at_lem xs zero src h = rw zero-add (overwrite_lem xs src (omega arith))
write_at_lem [] (suc i) src h = absurd (omega arith)
write_at_lem (x ∷ xs) (suc i) src h = ap (◌∷◌ x) (
    write_at_lem xs i src (omega arith)
    ∙ ap (λ k. take i xs ++ (src ++ k)) (sym (ap (λ k. drop k (x ∷ xs)) (suc-add i (length src)))))

-- The bytes from `r` on, up to just past what is written at `r + n`.
pub take-drop-write_at :
    (xs src : Bytes) (r n i k : ℕ)
    → i ≡ r + n
    → k ≡ n + length src
    → i + length src ≤ length xs
    → take k (drop r (write_at xs i src)) ≡ take n (drop r xs) ++ src
take-drop-write_at xs src r n i k ei ek h =
    rw
      (
        write_at_lem xs i src h,
        drop-append_le r (take i xs) (src ++ rest) (omega (arith, taken)),
        drop-take r n i xs ei,
        ← append_assoc (take n (drop r xs)) src rest,
      )
      (take-length-append k (take n (drop r xs) ++ src) rest (
        omega (
          arith,
          length-append {0} (take n (drop r xs)) src,
          length-take {0} n (drop r xs),
          length-drop {0} r xs,
        )))
  where
    rest : Bytes
    rest = drop (i + length src) xs

    taken : length (take i xs) ≡ i
    taken = omega (arith, length-take {0} i xs)

take-append_add :
    (k n : ℕ) (xs ys : Bytes) → k ≡ length xs + n → take k (xs ++ ys) ≡ xs ++ take n ys
take-append_add k n [] ys e = ap (λ j. take j ys) (omega arith)
take-append_add zero n (x ∷ xs) ys e = absurd (omega arith)
take-append_add (suc k) n (x ∷ xs) ys e = ap (◌∷◌ x) (take-append_add k n xs ys (omega arith))

-- The bytes from `r` on, where `src` is written at `r`.
pub take-drop-write_at_front :
    (xs src : Bytes) (r n j k : ℕ)
    → j ≡ r + length src
    → k ≡ length src + n
    → j ≤ length xs
    → take k (drop r (write_at xs r src)) ≡ src ++ take n (drop j xs)
take-drop-write_at_front xs src r n j k ej ek h =
    rw
      (
        write_at_lem xs r src (omega arith),
        drop-length-append r (take r xs) (src ++ drop (r + length src) xs)
            (omega (arith, length-take {0} r xs)),
        ← ej,
      )
      (take-append_add k n src (drop j xs) ek)

pub length-readable : (b : Buffer) → IsValid b → length (readable b) ≡ readable_bytes b
length-readable b v = omega (
  arith,
  length-take {0} (readable_bytes b) (drop b.read_index b.storage),
  length-drop {0} b.read_index b.storage,
)
