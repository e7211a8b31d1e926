-- ===== src/Base/Frame/Loop.antt =====
-- The resynchronising loop ends within its fuel.
use mmorpg_game_server.Common.{
  ℕ, zero, suc, ◌+◌, ◌/◌, ◌%◌, ◌≤◌, ◌<◌, ◌≡◌, refl, ◌≢◌, ◌⊎◌, inl, inr, some, [], ◌∷◌, ◌++◌, arith,
  Option-cases, lt→ltb, le→not_ltb, length, All,
}
use mmorpg_game_server.Base.Bytes.{Bytes}
use mmorpg_game_server.Base.Buffer.{Buffer, retrieve, readable, readable_bytes}
use mmorpg_game_server.Base.Frame.{
  Outcome, Round, done, again, max_resync, loop, round, skip, resync_to, find_magic, search_pair,
  need_more,
}

-- A round that continues has counted one more resync, and no more than the limit.
abbrev pub Counts {ℓ} : {H : Type ℓ} → (ℕ → Buffer → Round H) → Type ℓ
Counts {H = H} body =
    (resync resync' : ℕ) (b b' : Buffer)
    → body resync b ≡ again resync' b'
    → (resync < resync') × (resync' ≤ max_resync)

module _ {ℓ} {H : Type ℓ} where
  Round-cases :
      (r : Round H)
      → ((o : Outcome H) × (b : Buffer) × (r ≡ done o b))
        ⊎ ((resync : ℕ) × (b : Buffer) × (r ≡ again resync b))
  Round-cases (done o b) = inl (o, b, refl)
  Round-cases (again resync b) = inr (resync, b, refl)

  -- With such a body the loop ends within the fuel.
  pub loop_returns :
      (body : ℕ → Buffer → Round H) (fuel resync : ℕ) (b : Buffer)
      → Counts body
      → resync ≤ max_resync
      → max_resync < fuel + resync
      → (r : Outcome H × Buffer) × (loop body fuel resync b ≡ some r)
  unfolding loop
  loop_returns body zero resync b c h f = absurd (omega arith)
  loop_returns body (suc fuel) resync b c h f = elim (Round-cases (body resync b)) [
    | inl (o, b', e) ↦ ((o, b'), rw (e, loop))
    | inr (resync', b', e) ↦
        let n = c resync resync' b b' e in
        rw (e, loop) (loop_returns body fuel resync' b' c n.1 (omega arith))
  ]

  -- A loop whose first round returns, returns that.
  pub loop_done :
      (body : ℕ → Buffer → Round H) (fuel resync : ℕ) (b b' : Buffer) (o : Outcome H)
      → body resync b ≡ done o b'
      → loop body (suc fuel) resync b ≡ some (o, b')
  unfolding loop
  loop_done body fuel resync b b' o e = rw (e, loop)

  pub skip_counts :
      (resync resync' : ℕ) (b b' : Buffer)
      → skip {H = H} resync b ≡ again resync' b'
      → (resync < resync') × (resync' ≤ max_resync)
  unfolding skip
  skip_counts resync resync' b b' e = (ground arith, ground arith)

module _ {ℓ} {H : Type ℓ} (candidate : ℕ → Buffer → Round H) (c : Counts candidate) where
  resync_to-counts :
      (header_size resync resync' : ℕ) (b b' : Buffer)
      → resync_to candidate header_size resync b ≡ again resync' b'
      → (resync < resync') × (resync' ≤ max_resync)
  unfolding resync_to
  resync_to-counts header_size resync resync' b b' e =
      (ground (arith, c resync resync' b b'), ground (arith, c resync resync' b b'))

  -- So a round counts, if what it does with a candidate counts.
  pub round-Counts : (magic header_size : ℕ) → Counts (round magic header_size candidate)
  unfolding round
  round-Counts magic header_size resync resync' b b' e = elim (Option-cases (find_magic magic b)) [
    | inl n ↦ ground (arith, n)
    | inr (offset, n) ↦ ground (
      arith,
      n,
      c resync resync' b b',
      resync_to-counts header_size (resync + 1) resync' (retrieve b offset) b',
    )
  ]

module _ {ℓ} {H : Type ℓ} (candidate : ℕ → Buffer → Round H) (magic header_size : ℕ) (resync : ℕ)
    (b : Buffer) where
  -- Less than a header: the buffer is left alone.
  pub round_short :
      readable_bytes b < header_size → round magic header_size candidate resync b ≡ done need_more b
  unfolding round
  round_short h = rw (lt→ltb (readable_bytes b) header_size h)

  -- The magic number stands in front.
  pub round_here :
      header_size ≤ readable_bytes b
      → 2 ≤ readable_bytes b
      → search_pair (magic / 256 % 256) (magic % 256) (readable b) ≡ some 0
      → round magic header_size candidate resync b ≡ candidate resync b
  unfolding round find_magic
  round_here h k e =
      rw (le→not_ltb (readable_bytes b) header_size h, le→not_ltb (readable_bytes b) 2 k, e)

  -- The magic number stands behind other bytes, with a whole header after them.
  pub round_behind :
      (offset : ℕ)
      → 2 ≤ readable_bytes b
      → search_pair (magic / 256 % 256) (magic % 256) (readable b) ≡ some (suc offset)
      → header_size ≤ readable_bytes b
      → header_size ≤ readable_bytes (retrieve b (suc offset))
      → resync < max_resync
      → round magic header_size candidate resync b
        ≡ candidate (resync + 1) (retrieve b (suc offset))
  unfolding round find_magic resync_to
  round_behind offset k e h room r = rw (
    le→not_ltb (readable_bytes b) header_size h,
    le→not_ltb (readable_bytes b) 2 k,
    e,
    le→not_ltb max_resync (resync + 1) (omega arith),
    le→not_ltb (readable_bytes (retrieve b (suc offset))) header_size room,
    lt→ltb 0 (suc offset) (omega arith),
  )

-- Bytes without the first byte of the magic number hide none, up to the magic number behind them.
pub search_pair-behind :
    (hi lo : ℕ) (garbage xs : Bytes)
    → All (λ c. c ≢ hi) garbage
    → search_pair hi lo xs ≡ some 0
    → search_pair hi lo (garbage ++ xs) ≡ some (length garbage)
unfolding search_pair
search_pair-behind hi lo [] xs h e = e
search_pair-behind hi lo (c ∷ []) [] h e = cc
search_pair-behind hi lo (c ∷ []) (x ∷ xs) (hc, hs) e = ground (arith, e)
search_pair-behind hi lo (c ∷ d ∷ garbage) xs (hc, hs) e =
    ground (arith, search_pair-behind hi lo (d ∷ garbage) xs hs e)
