-- ===== src/Base/Bytes/RoundTrip.antt =====
-- The integer loops give back what they wrote, at every width.
use mmorpg_game_server.Base.Bytes.{
  Bytes, IsByte, put_loop, put_le, get_loop, get_le, put_be, get_be,
}
use mathlib.Core.Path.{ap₂}
use native.Mathlib.Nat.{pow-suc, add-zero, div-div-eq-div-mul}
use native.Mathlib.Numerals.{towards_suc}
use mmorpg_game_server.Common.{
  Bool, true, ltb, ◌&&◌, ℕ, zero, suc, ◌+◌, ◌*◌, ◌/◌, ◌%◌, ◌^◌, ◌≤◌, ◌<◌, ◌≡◌, refl, sym, ap, ◌∙◌,
  [], ◌∷◌, ◌++◌, arith, length, get_or, take, drop, length-append, length-take, length-drop,
  drop-drop, take-append-drop, All,
}

-- The value of digits to the base 256, the lowest first, and back.
value : Bytes → ℕ
value [] = 0
value (b ∷ bs) = b + 256 * value bs

digits : ℕ → ℕ → Bytes
digits zero v = []
digits (suc n) v = (v % 256) ∷ digits n (v / 256)

value-digits : (n v : ℕ) → v < 256 ^ n → value (digits n v) ≡ v
unfolding value digits
value-digits zero v h = omega arith
value-digits (suc n) v h = omega (arith, value-digits n (v / 256) (omega (arith, pow-suc 256 n)))

shift_eight : (i j : ℕ) → j ≡ 8 * i + 8 → 2 ^ j ≡ 2 ^ (8 * i) * 256
shift_eight i j e = rw e (simp towards_suc (omega arith))

next_shift : (i v : ℕ) → v / 2 ^ (8 * (i + 1)) ≡ v / 2 ^ (8 * i) / 256
next_shift i v =
    rw (shift_eight i (8 * (i + 1)) (omega arith)) (sym (div-div-eq-div-mul v (2 ^ (8 * i)) 256))

put_loop-digits : (n i v : ℕ) → put_loop n i v ≡ digits n (v / 2 ^ (8 * i))
unfolding put_loop digits
put_loop-digits zero i v = refl
put_loop-digits (suc n) i v = rw (put_loop-digits n (i + 1) v, next_shift i v)

take-drop_step :
    (n k : ℕ) (s : Bytes)
    → n < length s
    → take (suc k) (drop n s) ≡ get_or s n 0 ∷ take k (drop (suc n) s)
take-drop_step n k [] h = absurd (omega arith)
take-drop_step zero k (b ∷ s) h = refl
take-drop_step (suc n) k (b ∷ s) h = take-drop_step n k s (omega arith)

next_position : (p i : ℕ) → p + (i + 1) ≡ suc (p + i)
next_position p i = omega arith

regroup : (v b p t : ℕ) → v + b * p + t * (p * 256) ≡ v + (b + 256 * t) * p
regroup v b p t = omega arith

get_loop-value :
    (n i : ℕ) (s : Bytes) (position v : ℕ)
    → position + i + n ≤ length s
    → get_loop n i s position v ≡ v + value (take n (drop (position + i) s)) * 2 ^ (8 * i)
unfolding get_loop value
get_loop-value zero i s position v h = omega arith
get_loop-value (suc n) i s position v h =
    get_loop-value n (i + 1) s position _ (omega arith)
    ∙ rw
        (
          take-drop_step (position + i) n s (omega arith),
          shift_eight i (8 * (i + 1)) (omega arith),
          next_position position i,
        )
        (unfold value in
          regroup v (get_or s (position + i) 0) (2 ^ (8 * i))
            (value (take n (drop (suc (position + i)) s))))

pub get_le-put_le :
    (n position v : ℕ) (s : Bytes)
    → take n (drop position s) ≡ put_le n v
    → position + n ≤ length s
    → v < 256 ^ n
    → get_le s position n ≡ v
unfolding get_le put_le
get_le-put_le n position v s e h fits =
    get_loop-value n 0 s position 0 (omega arith)
    ∙ rw (add-zero position, e, put_loop-digits n 0 v)
        (omega (arith, value-digits n (v / 2 ^ (8 * 0)) (omega arith)))

pub length-put_be : (n v : ℕ) → length (put_be n v) ≡ n
unfolding put_be
length-put_be zero v = refl
length-put_be (suc n) v =
    omega
      (arith, length-append {0} (put_be n (v / 256)) ((v % 256) ∷ []), length-put_be n (v / 256))

get_be-append : (v b : ℕ) (bs : Bytes) → get_be v (bs ++ b ∷ []) ≡ get_be v bs * 256 + b
unfolding get_be
get_be-append v b [] = refl
get_be-append v b (c ∷ bs) = get_be-append (v * 256 + c) b bs

-- Reading in network order gives back the value that was written.
pub get_be-put_be : (n v : ℕ) → v < 256 ^ n → get_be 0 (put_be n v) ≡ v
unfolding get_be put_be
get_be-put_be zero v h = omega arith
get_be-put_be (suc n) v h = omega (
  arith,
  get_be-append 0 (v % 256) (put_be n (v / 256)),
  get_be-put_be n (v / 256) (omega (arith, pow-suc 256 n)),
)

value-lt : (xs : Bytes) → All IsByte xs → value xs < 256 ^ length xs
unfolding value
value-lt [] h = omega arith
value-lt (b ∷ bs) (hb, hs) = omega (arith, value-lt bs hs, pow-suc 256 (length bs))

digits-value : (n : ℕ) (xs : Bytes) → length xs ≡ n → All IsByte xs → digits n (value xs) ≡ xs
unfolding digits value
digits-value zero [] e h = refl
digits-value zero (b ∷ bs) e h = absurd (omega arith)
digits-value (suc n) [] e h = absurd (omega arith)
digits-value (suc n) (b ∷ bs) e (hb, hs) =
    ap₂ ◌∷◌ (omega arith) (ap (digits n) (omega arith) ∙ digits-value n bs (omega arith) hs)

pub All-drop : (n : ℕ) (xs : Bytes) → All IsByte xs → All IsByte (drop n xs)
All-drop zero xs h = h
All-drop (suc n) [] h = tt
All-drop (suc n) (x ∷ xs) (hx, hs) = All-drop n xs hs

pub All-take : (n : ℕ) (xs : Bytes) → All IsByte xs → All IsByte (take n xs)
All-take zero xs h = tt
All-take (suc n) [] h = tt
All-take (suc n) (x ∷ xs) (hx, hs) = (hx, All-take n xs hs)

get_le-value :
    (n position : ℕ) (s : Bytes)
    → position + n ≤ length s
    → get_le s position n ≡ value (take n (drop position s))
unfolding get_le
get_le-value n position s h =
    get_loop-value n 0 s position 0 (omega arith) ∙ rw (add-zero position) (omega arith)

window :
    (n position : ℕ) (s : Bytes) → position + n ≤ length s → length (take n (drop position s)) ≡ n
window n position s h =
    omega (arith, length-take {0} n (drop position s), length-drop {0} position s)

-- Writing what was read gives back the bytes.
pub put_le-get_le :
    (n position : ℕ) (s : Bytes)
    → position + n ≤ length s
    → All IsByte s
    → put_le n (get_le s position n) ≡ take n (drop position s)
unfolding put_le
put_le-get_le n position s h bytes =
    put_loop-digits n 0 (get_le s position n)
    ∙ ap (digits n) (omega (arith, get_le-value n position s h))
    ∙ digits-value n _ (window n position s h) (All-take n _ (All-drop position s bytes))

pub get_le-lt :
    (n position : ℕ) (s : Bytes)
    → position + n ≤ length s
    → All IsByte s
    → get_le s position n < 256 ^ n
get_le-lt n position s h bytes =
    let bound = value-lt (take n (drop position s)) (All-take n _ (All-drop position s bytes)) in
    rw (get_le-value n position s h) (rw (window n position s h) at bound)

-- A check of a byte string at hand.
abbrev pub bytes_ok : Bytes → Bool
bytes_ok [] = true
bytes_ok (b ∷ bs) = ltb b 256 && bytes_ok bs

pub bytes_ok-All : (bs : Bytes) → bytes_ok bs ≡ true → All IsByte bs
bytes_ok-All [] e = tt
bytes_ok-All (b ∷ bs) e = (ground (arith, e), bytes_ok-All bs (ground (arith, e)))

-- Two neighbouring parts of a string, joined.
pub join :
    (n position next : ℕ) (s : Bytes)
    → next ≡ position + n
    → take n (drop position s) ++ drop next s ≡ drop position s
join n position next s e =
    ap (◌++◌ (take n (drop position s))) (sym (drop-drop n position next s e))
    ∙ take-append-drop n (drop position s)
