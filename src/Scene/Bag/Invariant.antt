-- ===== src/Scene/Bag/Invariant.antt =====
-- What every bag keeps: its capacity, and stacks in distinct slots.
use mmorpg_game_server.Common.{
  ℕ, ◌+◌, ◌-◌, ◌%◌, ◌^◌, ◌≤◌, ◌<◌, ◌≡◌, refl, ◌≢◌, inl, inr, ◌||◌, some, [], arith, ltb, leb, ◌==◌,
  Bool-cases, Option-cases, ==→eq, length,
}
use mmorpg_game_server.Common.Map.{
  Map, find, insert, IsMap, find-insert, find-erase, insert-IsMap, erase-IsMap, length-insert,
  length-erase-le,
}
use mmorpg_game_server.Scene.Bag.{
  Bag, ItemStack, slot_range, create, stack_up, take_slot, add_item, take_off, reduce_item,
}

-- What a bag keeps true of each stack: it stands under its item, is not empty, and holds a slot that
-- was given out.
pub record IsStack (next_slot item_id : ℕ) (x : ItemStack) : Type 0 where
  pub item : x.item_id ≡ item_id
  pub known : item_id ≢ 0
  pub some_left : 0 < x.count
  pub fits : x.count < 2 ^ 16
  pub in_slot : x.slot < next_slot

abbrev pub AllStacks : ℕ → Map ItemStack → Type 0
AllStacks next_slot m = (k : ℕ) (x : ItemStack) → find k m ≡ some x → IsStack next_slot k x

abbrev pub DistinctSlots : Map ItemStack → Type 0
DistinctSlots m =
    (k j : ℕ) (x y : ItemStack) → find k m ≡ some x → find j m ≡ some y → x.slot ≡ y.slot → k ≡ j

pub record Inv (b : Bag) : Type 0 where
  pub room : 0 < b.capacity
  pub capped : b.capacity ≤ slot_range
  pub slots : b.next_slot ≤ slot_range
  pub is_map : IsMap b.items
  pub bounded : length b.items ≤ b.capacity
  pub stacks : AllStacks b.next_slot b.items
  pub distinct : DistinctSlots b.items

pub insert-AllStacks :
    (m : Map ItemStack) (next k : ℕ) (x : ItemStack)
    → AllStacks next m
    → IsStack next k x
    → AllStacks next (insert k x m)
insert-AllStacks m next k x all v j y e = elim (Bool-cases (k == j)) [
  | inl n ↦ let same : x ≡ y = ground (arith, find-insert k j x m) in rw (← same, ← ==→eq k j n) v
  | inr n ↦ all j y (ground (arith, find-insert k j x m))
]

-- A stack in a slot that no other item holds.
pub insert-DistinctSlots :
    (m : Map ItemStack) (k : ℕ) (x : ItemStack)
    → DistinctSlots m
    → ((j : ℕ) (y : ItemStack) → find j m ≡ some y → x.slot ≡ y.slot → k ≡ j)
    → DistinctSlots (insert k x m)
insert-DistinctSlots m k x d free a b y z ea eb same =
    ground (arith, find-insert k a x m, find-insert k b x m, d a b y z, free a y, free b z)

pub create-Inv : (capacity : ℕ) (b : Bag) → create capacity ≡ some b → Inv b
unfolding create
create-Inv capacity b e = elim (Bool-cases (capacity == 0)) [
  | inl z ↦
      let same : record { capacity = 1; next_slot = 0; items = [] } ≡ b = cc (rw z at e) in
      rw (← same) (record {
        room = omega arith;
        capped = omega arith;
        slots = omega arith;
        is_map = tt;
        bounded = omega arith;
        stacks = λ k x h. cc;
        distinct = λ k j x y h _ _. cc;
      })
  | inr z ↦ elim (Bool-cases (ltb slot_range capacity)) [
    | inl f ↦ cc (rw (z, f) at e)
    | inr f ↦
        let same : record { capacity = capacity; next_slot = 0; items = [] } ≡ b =
          cc (rw (z, f) at e) in
        rw (← same) (record {
          room = ground arith;
          capped = ground arith;
          slots = omega arith;
          is_map = tt;
          bounded = omega arith;
          stacks = λ k x h. cc;
          distinct = λ k j x y h _ _. cc;
        })
  ]
]

stack_up-Inv :
    (b : Bag) (st : ItemStack) (k num : ℕ)
    → Inv b
    → find k b.items ≡ some st
    → 0 < num
    → Inv (stack_up b st k num).1
unfolding stack_up
stack_up-Inv b st k num v e pos_num = elim (Bool-cases (ltb 0xFFFF (st.count + num))) [
  | inl f ↦ rw f v
  | inr f ↦
      let w = v.stacks k st e in
      rw f (record {
        room = v.room;
        capped = v.capped;
        slots = v.slots;
        is_map = insert-IsMap k _ b.items v.is_map;
        bounded = ground (
          arith,
          v.bounded,
          length-insert k (record st { count = (st.count + num) % 2 ^ 16 }) b.items,
          e,
        );
        stacks = insert-AllStacks b.items b.next_slot k _ v.stacks (record {
          item = w.item;
          known = w.known;
          some_left = ground (arith, f);
          fits = omega arith;
          in_slot = w.in_slot;
        });
        distinct =
            insert-DistinctSlots b.items k _ v.distinct
              (λ j y h same. v.distinct k j st y e h same);
      })
]

take_slot-Inv :
    (b : Bag) (k num : ℕ) → Inv b → k ≢ 0 → 0 < num → num < 2 ^ 16 → Inv (take_slot b k num).1
unfolding take_slot
take_slot-Inv b k num v known pos_num small =
    elim (Bool-cases (leb b.capacity (length b.items) || leb slot_range b.next_slot)) [
      | inl f ↦ rw f v
      | inr f ↦
          let x : ItemStack = record { item_id = k; count = num; slot = b.next_slot % 2 ^ 16 } in
          let below : b.next_slot < slot_range = ground arith in
          rw f (record {
            room = v.room;
            capped = v.capped;
            slots = omega (arith, below);
            is_map = insert-IsMap k x b.items v.is_map;
            bounded = ground (arith, v.bounded, length-insert k x b.items, f);
            stacks =
                insert-AllStacks b.items (b.next_slot + 1) k x
                  (λ j y h.
                    let w = v.stacks j y h in
                    record {
                      item = w.item;
                      known = w.known;
                      some_left = w.some_left;
                      fits = w.fits;
                      in_slot = omega (arith, w.in_slot);
                    })
                  (record {
                    item = refl;
                    known = known;
                    some_left = pos_num;
                    fits = small;
                    in_slot = omega arith;
                  });
            distinct =
                insert-DistinctSlots b.items k x v.distinct
                  (λ j y h same. absurd (omega (arith, (v.stacks j y h).in_slot)));
          })
    ]

pub add_item-Inv : (b : Bag) (k num : ℕ) → num < 2 ^ 16 → Inv b → Inv (add_item b k num).1
unfolding add_item
add_item-Inv b k num small v = elim (Bool-cases (k == 0 || num == 0)) [
  | inl z ↦ rw z v
  | inr z ↦ elim (Option-cases (find k b.items)) [
    | inl e ↦ rw (z, e, add_item) (take_slot-Inv b k num v (ground arith) (ground arith) small)
    | inr (st, e) ↦ rw (z, e, add_item) (stack_up-Inv b st k num v e (ground arith))
  ]
]

take_off-Inv :
    (b : Bag) (st : ItemStack) (k num : ℕ)
    → Inv b
    → find k b.items ≡ some st
    → Inv (take_off b st k num).1
unfolding take_off
take_off-Inv b st k num v e = elim (Bool-cases (ltb st.count num)) [
  | inl f ↦ rw f v
  | inr f ↦ elim (Bool-cases (st.count - num == 0)) [
    | inl g ↦
        rw (f, g)
          (record {
            room = v.room;
            capped = v.capped;
            slots = v.slots;
            is_map = erase-IsMap k b.items v.is_map;
            bounded = omega (arith, v.bounded, length-erase-le k b.items);
            stacks = λ j y h. v.stacks j y (ground (arith, h, find-erase k j b.items));
            distinct = λ i j x y hx hy same.
                v.distinct i j x y (ground (arith, hx, find-erase k i b.items))
                  (ground (arith, hy, find-erase k j b.items)) same;
          })
    | inr g ↦
        let w = v.stacks k st e in
        rw (f, g)
          (record {
            room = v.room;
            capped = v.capped;
            slots = v.slots;
            is_map = insert-IsMap k _ b.items v.is_map;
            bounded = ground (
              arith,
              v.bounded,
              length-insert k (record st { count = st.count - num }) b.items,
              e,
            );
            stacks = insert-AllStacks b.items b.next_slot k _ v.stacks (record {
              item = w.item;
              known = w.known;
              some_left = ground (arith, g);
              fits = omega (arith, w.fits);
              in_slot = w.in_slot;
            });
            distinct =
                insert-DistinctSlots b.items k _ v.distinct
                  (λ j y h same. v.distinct k j st y e h same);
          })
  ]
]

pub reduce_item-Inv : (b : Bag) (k num : ℕ) → Inv b → Inv (reduce_item b k num).1
unfolding reduce_item
reduce_item-Inv b k num v = elim (Bool-cases (k == 0 || num == 0)) [
  | inl z ↦ rw z v
  | inr z ↦ elim (Option-cases (find k b.items)) [
    | inl e ↦ rw (z, e, reduce_item) v
    | inr (st, e) ↦ rw (z, e, reduce_item) (take_off-Inv b st k num v e)
  ]
]
