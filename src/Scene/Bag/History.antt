-- ===== src/Scene/Bag/History.antt =====
-- Histories of calls on one bag.
use mmorpg_game_server.Common.{
  ℕ, ◌+◌, ◌^◌, ◌≤◌, ◌<◌, ◌≡◌, refl, inl, inr, true, false, ◌||◌, some, List, [], ◌∷◌, arith, ltb,
  ◌==◌, Bool-cases, Option-cases, length,
}
use mmorpg_game_server.Common.Map.{
  Map, find, insert, IsMap, find-insert, insert-IsMap, length-insert,
}
use mmorpg_game_server.Scene.Bag.{
  Bag, ItemStack, slot_range, create, add_item, reduce_item, clear, member, refuses, restore_loop,
  restore,
}
use mmorpg_game_server.Scene.Bag.Invariant.{
  Inv, AllStacks, DistinctSlots, insert-AllStacks, insert-DistinctSlots, add_item-Inv,
  reduce_item-Inv,
}

-- The counts of the items given to `restore` are `uint16_t`.
abbrev pub Fits : List ItemStack → Type 0
Fits [] = Unit
Fits (x ∷ xs) = (x.count < 2 ^ 16) × Fits xs

-- What the loop of `restore` keeps of the items taken so far.
record Taken (next : ℕ) (slots : List ℕ) (m : Map ItemStack) : Type 0 where
  is_map : IsMap m
  stacks : AllStacks next m
  distinct : DistinctSlots m
  seen : (k : ℕ) (x : ItemStack) → find k m ≡ some x → member x.slot slots ≡ true

Taken-insert :
    (next : ℕ) (slots : List ℕ) (m : Map ItemStack) (x : ItemStack)
    → Taken next slots m
    → x.count < 2 ^ 16
    → refuses next slots m x ≡ false
    → Taken next (x.slot ∷ slots) (insert x.item_id x m)
Taken-insert next slots m x t small r = record {
  is_map = insert-IsMap x.item_id x m t.is_map;
  stacks = insert-AllStacks m next x.item_id x t.stacks (record {
    item = refl;
    known = ground (arith, r);
    some_left = ground (arith, r);
    fits = small;
    in_slot = ground (arith, r);
  });
  distinct =
      insert-DistinctSlots m x.item_id x t.distinct
        (λ j y h same. absurd (ground (arith, r, t.seen j y h)));
  seen = λ k y h. ground (arith, h, find-insert x.item_id k x m, t.seen k y);
}

restore_loop-Taken :
    (next : ℕ) (xs : List ItemStack) (slots : List ℕ) (m out : Map ItemStack)
    → Taken next slots m
    → Fits xs
    → restore_loop next xs slots m ≡ some out
    → (IsMap out × AllStacks next out) × (DistinctSlots out × (length out ≤ length m + length xs))
unfolding restore_loop
restore_loop-Taken next [] slots m out t f e =
    let same : m ≡ out = cc (e) in rw (← same) ((t.is_map, t.stacks), (t.distinct, omega arith))
restore_loop-Taken next (x ∷ xs) slots m out t (small, f) e =
    elim (Bool-cases (refuses next slots m x)) [
      | inl r ↦ cc (rw r at e)
      | inr r ↦
          let (a, (d, le)) =
            restore_loop-Taken next xs (x.slot ∷ slots) (insert x.item_id x m) out
              (Taken-insert next slots m x t small r) f (rw r at e) in
          (a, (d, ground (arith, le, length-insert x.item_id x m)))
    ]

pub restore-Inv :
    (b : Bag) (capacity next_slot : ℕ) (xs : List ItemStack)
    → Fits xs
    → Inv b
    → Inv (restore b capacity next_slot xs).1
unfolding restore
restore-Inv b capacity next_slot xs f v =
    elim (Bool-cases (
      capacity == 0
      || (ltb slot_range capacity || (ltb slot_range next_slot || ltb capacity (length xs))))) [
        | inl r ↦ rw r v
        | inr r ↦ elim (Option-cases (restore_loop next_slot xs [] [])) [
          | inl e ↦ rw (r, e, restore) v
          | inr (out, e) ↦
              let ((m, s), (d, le)) =
                restore_loop-Taken next_slot xs [] [] out
                  (record {
                    is_map = tt;
                    stacks = λ k x h. cc;
                    distinct = λ k j x y h _ _. cc;
                    seen = λ k x h. cc;
                  })
                  f e in
              rw (r, e, restore)
                (record {
                  room = ground (arith, r);
                  capped = ground (arith, r);
                  slots = ground (arith, r);
                  is_map = m;
                  bounded = ground (arith, le, r);
                  stacks = s;
                  distinct = d;
                })
        ]
      ]

pub clear-Inv : (b : Bag) → Inv b → Inv (clear b)
unfolding clear
clear-Inv b v = record {
  room = v.room;
  capped = v.capped;
  slots = omega arith;
  is_map = tt;
  bounded = omega arith;
  stacks = λ k x h. cc;
  distinct = λ k j x y h _ _. cc;
}

pub created : create 64 ≡ some (record { capacity = 64; next_slot = 0; items = [] })
unfolding create
created = refl

-- A call on a bag. The counts are `uint16_t`.
pub data Call : Type 0 where
  adds : (item_id num : ℕ) → num < 2 ^ 16 → Call
  reduces : (item_id num : ℕ) → Call
  clears : Call
  restores : (capacity next_slot : ℕ) (items : List ItemStack) → Fits items → Call

unfoldable pub step : Call → Bag → Bag
step (adds k num small) b = (add_item b k num).1
step (reduces k num) b = (reduce_item b k num).1
step clears b = clear b
step (restores capacity next_slot items small) b = (restore b capacity next_slot items).1

unfoldable pub run : List Call → Bag → Bag
unfolding step
run [] b = b
run (c ∷ cs) b = run cs (step c b)

step-Inv : (c : Call) (b : Bag) → Inv b → Inv (step c b)
unfolding step
step-Inv (adds k num small) b v = add_item-Inv b k num small v
step-Inv (reduces k num) b v = reduce_item-Inv b k num v
step-Inv clears b v = clear-Inv b v
step-Inv (restores capacity next_slot items small) b v =
    restore-Inv b capacity next_slot items small v

-- Any sequence of adds, takes, clears and restores keeps a bag's invariant: at most its capacity
-- of stacks, each once under its own item other than 0, with a count from 1 to 65535, in distinct
-- slots below the next one.
pub run-Bag_Inv : (cs : List Call) (b : Bag) → Inv b → Inv (run cs b)
unfolding run
run-Bag_Inv [] b v = v
run-Bag_Inv (c ∷ cs) b v = run-Bag_Inv cs (step c b) (step-Inv c b v)
