-- ===== src/Scene/Bag/Copy.antt =====
-- A bag restored from the view of another one.
use mmorpg_game_server.Common.{
  ℕ, ◌^◌, ◌<◌, ◌≡◌, refl, ap, ◌∙◌, inl, inr, true, ◌||◌, Option, none, some, List, [], ◌∷◌, arith,
  ltb, ◌==◌, if◌then◌else◌, Bool-cases, Option-cases, length,
}
use mmorpg_game_server.Common.Map.{Map, find, insert, values, IsMap, find-insert}
use mmorpg_game_server.Scene.Bag.{
  Bag, ItemStack, slot_range, insert_by_slot, sort_by_slot, view, count_of, refuses, restore_loop,
  restore,
}
use mmorpg_game_server.Scene.Bag.Invariant.{Inv, AllStacks}
use mmorpg_game_server.Scene.Bag.History.{Fits, restore-Inv}

-- The first stack of an item in a list.
abbrev find_item : ℕ → List ItemStack → Option ItemStack
find_item j [] = none
find_item j (x ∷ xs) = if x.item_id == j then some x else find_item j xs

or_then : Option ItemStack → Option ItemStack → Option ItemStack
or_then (some x) y = some x
or_then none y = y

restore_loop-find :
    (next : ℕ) (xs : List ItemStack) (slots : List ℕ) (m out : Map ItemStack) (j : ℕ)
    → restore_loop next xs slots m ≡ some out
    → find j out ≡ or_then (find j m) (find_item j xs)
unfolding restore_loop or_then
restore_loop-find next [] slots m out j e = let same : m ≡ out = cc e in rw (← same) (ground arith)
restore_loop-find next (x ∷ xs) slots m out j e = elim (Bool-cases (refuses next slots m x)) [
  | inl r ↦ cc (rw r at e)
  | inr r ↦ ground (
    arith,
    restore_loop-find next xs (x.slot ∷ slots) (insert x.item_id x m) out j (rw r at e),
    find-insert x.item_id j x m,
    r,
  )
]

find_item-insert_by_slot :
    (j : ℕ) (x : ItemStack) (ys : List ItemStack)
    → find_item x.item_id ys ≡ none
    → find_item j (insert_by_slot x ys) ≡ (if x.item_id == j then some x else find_item j ys)
unfolding insert_by_slot
find_item-insert_by_slot j x [] h = refl
find_item-insert_by_slot j x (y ∷ ys) h = ground (arith, h, find_item-insert_by_slot j x ys)

-- Every stack stands under its item.
abbrev Keyed : Map ItemStack → Type 0
Keyed [] = Unit
Keyed ((k, x) ∷ m) = (x.item_id ≡ k) × Keyed m

AllStacks-Keyed : (next : ℕ) (m : Map ItemStack) → IsMap m → AllStacks next m → Keyed m
AllStacks-Keyed next [] d a = tt
AllStacks-Keyed next ((k, x) ∷ m) (n, d) a =
    ((a k x (ground arith)).item, AllStacks-Keyed next m d (λ j y e. a j y (ground (arith, e, n))))

find_item-sort :
    (j : ℕ) (m : Map ItemStack)
    → IsMap m
    → Keyed m
    → find_item j (sort_by_slot (values m)) ≡ find j m
unfolding sort_by_slot
find_item-sort j [] d k = refl
find_item-sort j ((i, x) ∷ m) (n, d) (e, k) =
    let absent : find_item x.item_id (sort_by_slot (values m)) ≡ none =
      find_item-sort x.item_id m d k ∙ rw e n in
    ground (
      arith,
      e,
      absent,
      find_item-insert_by_slot j x (sort_by_slot (values m)),
      find_item-sort j m d k,
    )

Fits-insert_by_slot :
    (x : ItemStack) (ys : List ItemStack) → x.count < 2 ^ 16 → Fits ys → Fits (insert_by_slot x ys)
unfolding insert_by_slot
Fits-insert_by_slot x [] h f = (h, tt)
Fits-insert_by_slot x (y ∷ ys) h (g, f) = elim (Bool-cases (ltb x.slot y.slot)) [
  | inl e ↦ rw e (h, (g, f))
  | inr e ↦ rw e (g, Fits-insert_by_slot x ys h f)
]

Fits-sort :
    (next : ℕ) (m : Map ItemStack) → IsMap m → AllStacks next m → Fits (sort_by_slot (values m))
unfolding sort_by_slot
Fits-sort next [] d a = tt
Fits-sort next ((k, x) ∷ m) (n, d) a =
    Fits-insert_by_slot x (sort_by_slot (values m)) (a k x (ground arith)).fits
      (Fits-sort next m d (λ j y e. a j y (ground (arith, e, n))))

view-Fits : (b : Bag) → Inv b → Fits (view b)
unfolding view
view-Fits b v = Fits-sort b.next_slot b.items v.is_map v.stacks

restore-count_of :
    (b a c : Bag) (j : ℕ)
    → Inv b
    → restore a b.capacity b.next_slot (view b) ≡ (true, c)
    → count_of c j ≡ count_of b j
unfolding restore count_of view or_then
restore-count_of b a c j v e =
    elim (Bool-cases (
      b.capacity == 0
      || (ltb slot_range b.capacity
          || (ltb slot_range b.next_slot
              || ltb b.capacity (length (sort_by_slot (values b.items))))))) [
                | inl r ↦ cc (rw r at e)
                | inr r ↦
                    elim (Option-cases
                      (restore_loop b.next_slot (sort_by_slot (values b.items)) [] [])) [
                        | inl g ↦ cc (rw (r, g, restore) at e)
                        | inr (out, g) ↦
                            let made : record {
                              capacity = b.capacity;
                              next_slot = b.next_slot;
                              items = out;
                            }
                                ≡ c =
                              ap (λ q. q.1) (rw (r, g, restore) at e) in
                            let same : find j out ≡ find j b.items =
                              restore_loop-find b.next_slot (sort_by_slot (values b.items)) [] []
                                out j g
                              ∙ find_item-sort j b.items v.is_map
                                  (AllStacks-Keyed b.next_slot b.items v.is_map v.stacks) in
                            rw (← made, count_of, same) refl
                      ]
              ]

-- Where both bags keep their invariant, a bag restored with success from the other's capacity,
-- next slot and view keeps the invariant and shows the same count of every item.
pub restore-view :
    (b a c : Bag)
    → Inv b
    → Inv a
    → restore a b.capacity b.next_slot (view b) ≡ (true, c)
    → Inv c × ((j : ℕ) → count_of c j ≡ count_of b j)
restore-view b a c v w e = (
  rw⁻¹ (ap (λ r. r.1) e) (restore-Inv a b.capacity b.next_slot (view b) (view-Fits b v) w),
  λ j. restore-count_of b a c j v e,
)
