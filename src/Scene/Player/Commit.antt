-- ===== src/Scene/Player/Commit.antt =====
-- What the commit of an economic reservation delivers.
use mmorpg_game_server.Common.{
  ℕ, ◌+◌, ◌≡◌, refl, inl, inr, true, none, some, List, ◌==◌, if◌then◌else◌, Bool-cases,
  Option-cases,
}
use mmorpg_game_server.Scene.Bag
use mmorpg_game_server.Scene.Player.{
  EconomyReservation, ok, Player, revision_exhausted, record_mutation, same_id, commit_economy,
}
use mmorpg_game_server.Scene.Player.History.{Call, run, Inv, Holds}
use mmorpg_game_server.Scene.Player.Economy.{prepare_bag_lem, run_player-Inv}

-- The changes from one player to another by a reservation of an operation.
pub record Delivered (id : List ℕ) (p q : Player) : Type 0 where
  pub reservation : EconomyReservation
  pub reserved : p.economy_reservation ≡ some reservation
  pub of_operation : same_id reservation.request.operation_id id ≡ true
  pub charged : q.gold + reservation.request.cost ≡ p.gold
  pub received :
      (j : ℕ)
      → Bag.count_of q.bag j ≡ (
          if reservation.request.item_id == j
          then Bag.count_of p.bag j + reservation.request.count
          else Bag.count_of p.bag j)
  pub settled : q.economy_reservation ≡ none

commit-Delivered :
    (id : List ℕ) (p : Player)
    → Inv p
    → (commit_economy id p).0 ≡ ok true
    → Delivered id p (commit_economy id p).1
unfolding commit_economy record_mutation
commit-Delivered id p h e = elim (Option-cases p.economy_reservation) [
  | inl g ↦ cc (rw (g, commit_economy) at e)
  | inr (r, g) ↦
      let holds : Holds p.gold p.bag r = rw g at h.promise in
      elim (Bool-cases (same_id r.request.operation_id id)) [
        | inr k ↦ cc (rw (g, k, commit_economy) at e)
        | inl k ↦ elim (Bool-cases (revision_exhausted p)) [
          | inl x ↦ cc (rw (g, k, x, commit_economy) at e)
          | inr x ↦
              rw (g, k, x, commit_economy)
                (record {
                  reservation = r;
                  reserved = refl;
                  of_operation = k;
                  charged = holds.paid;
                  received =
                      (prepare_bag_lem r.request p.bag r.prepared_bag h.bag holds.small
                        holds.prepared).1;
                  settled = refl;
                })
        ]
      ]
]

-- Start with a player whose bag keeps its invariant, and whose reservation, if there is one, holds
-- against the gold and the bag. After any calls, a commit that reports success ends a reservation of
-- that operation: the gold falls by exactly the cost, the bag shows the reserved count more of the
-- item and as much as before of every other one, and nothing stays reserved.
pub commit_economy_lem :
    (cs : List Call) (p : Player) (id : List ℕ)
    → Inv p
    → (commit_economy id (run cs p)).0 ≡ ok true
    → Delivered id (run cs p) (commit_economy id (run cs p)).1
commit_economy_lem cs p id h e = commit-Delivered id (run cs p) (run_player-Inv cs p h) e
