-- ===== src/Scene/Player/History.antt =====
-- Histories of calls on a player, and what they keep.
use mmorpg_game_server.Common.{ℕ, ◌+◌, ◌^◌, ◌<◌, ◌≡◌, Option, none, some, List, [], ◌∷◌}
use mmorpg_game_server.Common.Int.{ℤ}
use mmorpg_game_server.Scene.Bag
use mmorpg_game_server.Scene.Bag.Invariant
use mmorpg_game_server.Scene.Bag.History.{Fits}
use mmorpg_game_server.Scene.Player.{
  PlayerSaveSnapshot, EconomyRequest, EconomyReservation, Player, set_hp, set_mp, modify_hp,
  modify_mp, add_gold, set_pos, set_scene_id, add_item, consume_item, clear_bag, confirm_save,
  restore_save_snapshot, prepare_bag, reserve_economy, commit_economy, cancel_economy,
}

-- A call on a player. The item counts are `uint16_t`.
pub data Call : Type 0 where
  sets_hp sets_mp : ℕ → Call
  modifies_hp modifies_mp adds_gold : ℤ → Call
  sets_pos : ℤ → ℤ → ℤ → Call
  sets_scene_id : ℕ → Call
  adds_item consumes_item : (item_id count : ℕ) → count < 2 ^ 16 → Call
  clears_bag : Call
  confirms_save : ℕ → ℕ → Call
  loads : (s : PlayerSaveSnapshot) → Fits s.items → Call
  reserves : (r : EconomyRequest) → r.count < 2 ^ 16 → Call
  commits cancels : List ℕ → Call

unfoldable pub step : Call → Player → Player
step (sets_hp v) p = (set_hp v p).1
step (sets_mp v) p = (set_mp v p).1
step (modifies_hp d) p = (modify_hp d p).1
step (modifies_mp d) p = (modify_mp d p).1
step (adds_gold d) p = (add_gold d p).1
step (sets_pos x y dir) p = (set_pos x y dir p).1
step (sets_scene_id s) p = (set_scene_id s p).1
step (adds_item k n small) p = (add_item k n p).1
step (consumes_item k n small) p = (consume_item k n p).1
step clears_bag p = (clear_bag p).1
step (confirms_save v r) p = confirm_save v r p
step (loads s small) p = (restore_save_snapshot s p).1
step (reserves r small) p = (reserve_economy r p).1
step (commits id) p = (commit_economy id p).1
step (cancels id) p = (cancel_economy id p).1

unfoldable pub run : List Call → Player → Player
unfolding step
run [] p = p
run (c ∷ cs) p = run cs (step c p)

-- What a reservation holds against the player's gold and bag of the moment.
pub record Holds (gold : ℕ) (bag : Bag.Bag) (r : EconomyReservation) : Type 0 where
  pub paid : r.candidate.gold + r.request.cost ≡ gold
  pub prepared : prepare_bag r.request bag ≡ some r.prepared_bag
  pub small : r.request.count < 2 ^ 16

abbrev pub Promises : ℕ → Bag.Bag → Option EconomyReservation → Type 0
Promises gold bag none = Unit
Promises gold bag (some r) = Holds gold bag r

pub record Inv (p : Player) : Type 0 where
  pub bag : Invariant.Inv p.bag
  pub promise : Promises p.gold p.bag p.economy_reservation
