-- ===== src/Scene/Bag/Tests.antt =====
-- Runs of the bag at concrete values.
use mmorpg_game_server.Common.{
  ℕ, ◌+◌, ◌-◌, ◌≡◌, refl, true, ◌&&◌, List, [], ◌∷◌, arith, leb, ◌==◌, if◌then◌else◌,
}
use mmorpg_game_server.Scene.Bag.{
  Bag, insert_by_slot, sort_by_slot, view, stack_up, take_slot, add_item, take_off, reduce_item,
  count_of, restore_loop, restore,
}
use mmorpg_game_server.Scene.Bag.Invariant.{Inv, create-Inv}
use mmorpg_game_server.Scene.Bag.History.{Call, adds, reduces, step, run, created, run-Bag_Inv}
use mmorpg_game_server.Scene.Bag.Counts.{add_item-count_of, reduce_item_lem}
use mmorpg_game_server.Scene.Bag.Copy.{restore-view}

abbrev fresh : Bag
fresh = record { capacity = 64; next_slot = 0; items = [] }

fresh-Inv : Inv fresh
fresh-Inv = create-Inv 64 fresh created

abbrev used : Bag
used = record {
  capacity = 64;
  next_slot = 2;
  items =
      (1001, record { item_id = 1001; count = 5; slot = 0 })
      ∷ (1002, record { item_id = 1002; count = 7; slot = 1 })
      ∷ [];
}

abbrev calls : List Call
calls = adds 1001 5 (omega arith) ∷ adds 1002 9 (omega arith) ∷ reduces 1002 2 ∷ []

run-used : run calls fresh ≡ used
unfolding run step add_item take_slot stack_up reduce_item take_off
run-used = refl

run-Bag_Inv_example : Inv (run calls fresh)
run-Bag_Inv_example = run-Bag_Inv calls fresh fresh-Inv

used-Inv : Inv used
used-Inv = rw run-used at run-Bag_Inv_example

add_item-count_of_example :
    count_of (add_item used 1001 3).1 1001
    ≡ (if (add_item used 1001 3).0 && true then count_of used 1001 + 3 else count_of used 1001)
add_item-count_of_example = add_item-count_of used 1001 3 1001

reduce_item_lem_example :
    ((reduce_item used 1002 7).0 ≡ leb 7 (count_of used 1002))
    × ((j : ℕ)
        → count_of (reduce_item used 1002 7).1 j ≡ (
            if (reduce_item used 1002 7).0 && 1002 == j
            then count_of used j - 7
            else count_of used j))
reduce_item_lem_example = reduce_item_lem used 1002 7 used-Inv (omega arith)

copied : restore fresh 64 2 (view used) ≡ (true, used)
unfolding restore view sort_by_slot insert_by_slot restore_loop
copied = refl

restore-view_example : Inv used × ((j : ℕ) → count_of used j ≡ count_of used j)
restore-view_example = restore-view used fresh used used-Inv fresh-Inv copied
