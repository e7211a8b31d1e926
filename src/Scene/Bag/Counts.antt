-- ===== src/Scene/Bag/Counts.antt =====
-- What adding and taking items does to the counts that a bag shows.
use mmorpg_game_server.Common.{
  ℕ, ◌+◌, ◌-◌, ◌%◌, ◌^◌, ◌≡◌, refl, ◌≢◌, inl, inr, ◌&&◌, ◌||◌, none, some, arith, ltb, leb, ◌==◌,
  if◌then◌else◌, Bool-cases, Option-cases, length,
}
use mmorpg_game_server.Common.Map.{find, find-insert, find-erase}
use mmorpg_game_server.Scene.Bag.{
  Bag, ItemStack, slot_range, add_item, reduce_item, stack_up, take_slot, take_off, count_of,
}
use mmorpg_game_server.Scene.Bag.Invariant.{Inv}

take_slot-count_of :
    (b : Bag) (k num j : ℕ)
    → find k b.items ≡ none
    → count_of (take_slot b k num).1 j
      ≡ (if (take_slot b k num).0 && k == j then count_of b j + num else count_of b j)
unfolding take_slot count_of
take_slot-count_of b k num j e =
    elim (Bool-cases (leb b.capacity (length b.items) || leb slot_range b.next_slot)) [
      | inl f ↦ rw f refl
      | inr f ↦ rw f (
          ground (
            arith,
            e,
            find-insert k j (record { item_id = k; count = num; slot = b.next_slot % 2 ^ 16 })
                b.items,
          ))
    ]

stack_up-count_of :
    (b : Bag) (st : ItemStack) (k num j : ℕ)
    → find k b.items ≡ some st
    → count_of (stack_up b st k num).1 j
      ≡ (if (stack_up b st k num).0 && k == j then count_of b j + num else count_of b j)
unfolding stack_up count_of
stack_up-count_of b st k num j e = elim (Bool-cases (ltb 0xFFFF (st.count + num))) [
  | inl f ↦ rw f refl
  | inr f ↦ rw f (
      ground
        (arith, e, f, find-insert k j (record st { count = (st.count + num) % 2 ^ 16 }) b.items))
]

-- Adding `num` of an item raises what the bag shows of it by `num` where it reports success;
-- else, and for every other item, the count shown stays.
pub add_item-count_of :
    (b : Bag) (k num j : ℕ)
    → count_of (add_item b k num).1 j
      ≡ (if (add_item b k num).0 && k == j then count_of b j + num else count_of b j)
unfolding add_item
add_item-count_of b k num j = elim (Bool-cases (k == 0 || num == 0)) [
  | inl z ↦ rw z refl
  | inr z ↦ elim (Option-cases (find k b.items)) [
    | inl e ↦ rw (z, e, add_item) (take_slot-count_of b k num j e)
    | inr (st, e) ↦ rw (z, e, add_item) (stack_up-count_of b st k num j e)
  ]
]

take_off-count_of :
    (b : Bag) (st : ItemStack) (k num j : ℕ)
    → find k b.items ≡ some st
    → count_of (take_off b st k num).1 j
      ≡ (if (take_off b st k num).0 && k == j then count_of b j - num else count_of b j)
unfolding take_off count_of
take_off-count_of b st k num j e = elim (Bool-cases (ltb st.count num)) [
  | inl f ↦ rw f refl
  | inr f ↦ elim (Bool-cases (st.count - num == 0)) [
    | inl g ↦ rw (f, g) (ground (arith, e, g, find-erase k j b.items))
    | inr g ↦
        rw (f, g)
          (ground (arith, e, find-insert k j (record st { count = st.count - num }) b.items))
  ]
]

reduce_item-count_of :
    (b : Bag) (k num j : ℕ)
    → count_of (reduce_item b k num).1 j
      ≡ (if (reduce_item b k num).0 && k == j then count_of b j - num else count_of b j)
unfolding reduce_item
reduce_item-count_of b k num j = elim (Bool-cases (k == 0 || num == 0)) [
  | inl z ↦ rw z refl
  | inr z ↦ elim (Option-cases (find k b.items)) [
    | inl e ↦ rw (z, e, reduce_item) refl
    | inr (st, e) ↦ rw (z, e, reduce_item) (take_off-count_of b st k num j e)
  ]
]

take_off-done : (b : Bag) (st : ItemStack) (k num : ℕ) → (take_off b st k num).0 ≡ leb num st.count
unfolding take_off
take_off-done b st k num = ground arith

reduce_item-done :
    (b : Bag) (k num : ℕ)
    → num ≢ 0
    → (find 0 b.items ≡ none)
    → (reduce_item b k num).0 ≡ leb num (count_of b k)
unfolding reduce_item count_of
reduce_item-done b k num nz no_zero = elim (Bool-cases (k == 0 || num == 0)) [
  | inl z ↦ ground (arith, no_zero, z)
  | inr z ↦ elim (Option-cases (find k b.items)) [
    | inl e ↦ rw (z, e, reduce_item) (ground arith)
    | inr (st, e) ↦ rw (z, e, reduce_item, count_of) (take_off-done b st k num)
  ]
]

-- In a bag that keeps its invariant, taking `num > 0` of an item succeeds exactly where the bag
-- shows at least `num` of it. It lowers that item's count by `num` on success, and leaves every
-- count as it is on failure; the counts of the other items stay.
pub reduce_item_lem :
    (b : Bag) (k num : ℕ)
    → Inv b
    → num ≢ 0
    → ((reduce_item b k num).0 ≡ leb num (count_of b k))
      × ((j : ℕ)
          → count_of (reduce_item b k num).1 j
            ≡ (if (reduce_item b k num).0 && k == j then count_of b j - num else count_of b j))
reduce_item_lem b k num v nz = (
  reduce_item-done b k num nz (elim (Option-cases (find 0 b.items)) [
    | inl e ↦ e
    | inr (st, e) ↦ absurd ((v.stacks 0 st e).known refl)
  ]),
  reduce_item-count_of b k num,
)
