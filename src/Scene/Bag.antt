-- ===== src/Scene/Bag.antt =====
-- A player's bag (sceneServer/src-cpp/player/item.h, bag.h and bag.cc).
pub mod Invariant
pub mod History
pub mod Counts
pub mod Copy
mod Tests
use mmorpg_game_server.Common.{
  ℕ, zero, suc, ◌+◌, ◌-◌, ◌*◌, ◌/◌, ◌%◌, ◌^◌, ◌≤◌, ◌<◌, min, ◌≡◌, refl, sym, ap, ◌∙◌, ◌≢◌, ◌⊎◌, inl,
  inr, ◌↔◌, Bool, true, false, ◌&&◌, ◌||◌, not, Option, none, some, List, [], ◌∷◌, ◌++◌, map,
  append-nil, append_assoc, arith, ltb, leb, ◌==◌, if◌then◌else◌, Bool-cases, Option-cases, ==-refl,
  ltb→lt, lt→ltb, le→not_ltb, not_ltb→le, ==→eq, length, get_or, take, drop, replicate, retain,
  length-append, length-take, length-drop, length-replicate, take_all, drop_all, take-length-append,
  drop-length-append, drop-drop, drop-take, take-take, take-append-drop, take-append_le,
  drop-append_le, length-retain-le, All, All-append,
}
use mmorpg_game_server.Common.Map.{Map, find, insert, erase, values, has}

-- `ItemStack`
pub record ItemStack : Type 0 where
  pub item_id : ℕ
  pub count : ℕ
  pub slot : ℕ

pub record Bag : Type 0 where
  pub capacity : ℕ
  pub next_slot : ℕ
  pub items : Map ItemStack

-- The number of `uint16_t` values, which bounds slots and capacity.
abbrev pub slot_range : ℕ
slot_range = 65536

-- The constructor; `none` is the exception `std::invalid_argument`.
pub create : ℕ → Option Bag
create capacity =
    let cap = if capacity == 0 then 1 else capacity in
    if ltb slot_range cap then none else some (record { capacity = cap; next_slot = 0; items = [] })

-- The sort by slots.
unfoldable pub insert_by_slot : ItemStack → List ItemStack → List ItemStack
insert_by_slot x [] = x ∷ []
insert_by_slot x (y ∷ ys) = if ltb x.slot y.slot then x ∷ y ∷ ys else y ∷ insert_by_slot x ys

unfoldable pub sort_by_slot : List ItemStack → List ItemStack
unfolding insert_by_slot
sort_by_slot [] = []
sort_by_slot (x ∷ xs) = insert_by_slot x (sort_by_slot xs)

unfoldable pub view : Bag → List ItemStack
unfolding sort_by_slot
view b = sort_by_slot (values b.items)

-- `addItem` where the bag has a stack of the item.
unfoldable pub stack_up : Bag → ItemStack → ℕ → ℕ → Bool × Bag
stack_up b st item_id num = if ltb 0xFFFF (st.count + num) then (false, b) else (
  true,
  record b { items = insert item_id (record st { count = (st.count + num) % 2 ^ 16 }) b.items },
)

-- `addItem` where it has none.
unfoldable pub take_slot : Bag → ℕ → ℕ → Bool × Bag
take_slot b item_id num =
    if leb b.capacity (length b.items) || leb slot_range b.next_slot then (false, b) else (
      true,
      record b {
        items =
            insert item_id (record { item_id = item_id; count = num; slot = b.next_slot % 2 ^ 16 })
              b.items;
        next_slot = b.next_slot + 1;
      },
    )

unfoldable pub add_item : Bag → ℕ → ℕ → Bool × Bag
unfolding stack_up take_slot
add_item b item_id num =
    if item_id == 0 || num == 0 then (false, b) else elim (find item_id b.items) [
      | none ↦ take_slot b item_id num
      | some st ↦ stack_up b st item_id num
    ]

-- `reduceItem` where the bag has a stack of the item.
take_off : Bag → ItemStack → ℕ → ℕ → Bool × Bag
take_off b st item_id num =
    if ltb st.count num
    then (false, b)
    else if st.count - num == 0
    then (true, record b { items = erase item_id b.items })
    else (true, record b { items = insert item_id (record st { count = st.count - num }) b.items })

pub reduce_item : Bag → ℕ → ℕ → Bool × Bag
unfolding take_off
reduce_item b item_id num =
    if item_id == 0 || num == 0
    then (false, b)
    else elim (find item_id b.items) [ none ↦ (false, b) | some st ↦ take_off b st item_id num ]

pub count_of : Bag → ℕ → ℕ
count_of b item_id = elim (find item_id b.items) [ none ↦ 0 | some st ↦ st.count ]

pub clear : Bag → Bag
clear b = record b { items = []; next_slot = 0 }

-- `std::unordered_set<uint16_t>`
abbrev pub member : ℕ → List ℕ → Bool
member x [] = false
member x (y ∷ ys) = y == x || member x ys

-- The checks on one item, against the slots and the items before it.
abbrev pub refuses : ℕ → List ℕ → Map ItemStack → ItemStack → Bool
refuses next_slot slots restored x =
    x.item_id == 0
    || (x.count == 0 || (leb next_slot x.slot || (member x.slot slots || has x.item_id restored)))

-- The loop of `restore`, over the items, the slots seen and the items taken.
unfoldable pub restore_loop : ℕ → List ItemStack → List ℕ → Map ItemStack → Option (Map ItemStack)
restore_loop next_slot [] slots restored = some restored
restore_loop next_slot (x ∷ xs) slots restored =
    let later = restore_loop next_slot xs (x.slot ∷ slots) (insert x.item_id x restored) in
    if refuses next_slot slots restored x then none else later

unfoldable pub restore : Bag → ℕ → ℕ → List ItemStack → Bool × Bag
unfolding restore_loop
restore b capacity next_slot items =
    if capacity == 0
      || (ltb slot_range capacity || (ltb slot_range next_slot || ltb capacity (length items)))
    then (false, b)
    else elim (restore_loop next_slot items [] []) [
      | none ↦ (false, b)
      | some restored ↦
          (true, record { capacity = capacity; next_slot = next_slot; items = restored })
    ]
