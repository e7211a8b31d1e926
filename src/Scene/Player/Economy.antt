-- ===== src/Scene/Player/Economy.antt =====
-- What an economic reservation promises, and what its commit delivers.
use mmorpg_game_server.Common.{
  ℕ, ◌+◌, ◌^◌, ◌<◌, ◌≡◌, refl, ◌⊎◌, inl, inr, Bool, true, false, ◌&&◌, ◌||◌, not, Option, none,
  some, List, [], ◌∷◌, arith, ltb, ◌==◌, if◌then◌else◌, Bool-cases, Option-cases, length,
}
use mmorpg_game_server.Common.Int.{ℤ, pos, ◌+ℤ◌, sub_ℕ, pos_part}
use mmorpg_game_server.Scene.Bag
use mmorpg_game_server.Scene.Bag.Invariant
use mmorpg_game_server.Scene.Bag.History.{Fits, clear-Inv, restore-Inv, created}
use mmorpg_game_server.Scene.Bag.Copy.{restore-view}
use mmorpg_game_server.Scene.Bag.Counts.{add_item-count_of}
use mmorpg_game_server.Scene.Player.History.{
  Call, sets_hp, sets_mp, modifies_hp, modifies_mp, adds_gold, sets_pos, sets_scene_id, adds_item,
  consumes_item, clears_bag, confirms_save, loads, reserves, commits, cancels, step, run, Holds,
  Promises, Inv,
}
use mmorpg_game_server.Scene.Player.{
  Exception, Result, ok, throws, PlayerSaveSnapshot, EconomyRequest, EconomyReservation, Player,
  economy_pending, revision_exhausted, record_mutation, set_hp, set_mp, held, modify_hp, modify_mp,
  clamp, add_gold, set_pos, eq_ℤ, set_scene_id, add_item, consume_item, with_bag, clear_bag,
  confirm_save, freeze_save_snapshot, default_bag, restore_save_snapshot, same_id, refuses_request,
  prepare_bag, reserve_with, reserve_economy, commit_economy, cancel_economy, max_i64, max_gold,
  max_hp, max_mp,
}

-- A test that leaves the player as it is on one branch.
if-Inv :
    {A : Type 0} (b : Bool) (u w : A × Player)
    → Inv u.1
    → (b ≡ false → Inv w.1)
    → Inv (if b then u else w).1
if-Inv true u w h k = h
if-Inv false u w h k = k refl

Promises-nothing :
    (p : Player)
    → economy_pending p ≡ false
    → (gold : ℕ) (bag : Bag.Bag) → Promises gold bag p.economy_reservation
unfolding economy_pending
Promises-nothing p e gold bag = go p.economy_reservation e
  where
    go :
        (o : Option EconomyReservation)
        → elim o [ none ↦ false | some r ↦ true ] ≡ false
        → Promises gold bag o
    go none e = tt
    go (some r) e = cc e

Result-cases :
    {A : Type 0} (r : Result A) → ((a : A) × (r ≡ ok a)) ⊎ ((x : Exception) × (r ≡ throws x))
Result-cases (ok a) = inl (a, refl)
Result-cases (throws x) = inr (x, refl)

record_mutation-Inv : {A : Type 0} (a : A) (p : Player) → Inv p → Inv (record_mutation a p).1
unfolding record_mutation
record_mutation-Inv a p h =
    if-Inv (revision_exhausted p) _ _ h (λ _. record { bag = h.bag; promise = h.promise })

set_hp-Inv : (v : ℕ) (p : Player) → Inv p → Inv (set_hp v p).1
unfolding set_hp
set_hp-Inv v p h = if-Inv (p.hp == v) _ _ h (λ _. if-Inv (revision_exhausted p) _ _ h (λ _.
    record_mutation-Inv tt (record p { hp = v }) (record { bag = h.bag; promise = h.promise })))

set_mp-Inv : (v : ℕ) (p : Player) → Inv p → Inv (set_mp v p).1
unfolding set_mp
set_mp-Inv v p h = if-Inv (p.mp == v) _ _ h (λ _. if-Inv (revision_exhausted p) _ _ h (λ _.
    record_mutation-Inv tt (record p { mp = v }) (record { bag = h.bag; promise = h.promise })))

add_gold-Inv : (delta : ℤ) (p : Player) → Inv p → Inv (add_gold delta p).1
unfolding add_gold
add_gold-Inv delta p h =
    let clamped = clamp delta (sub_ℕ 0 p.gold) (sub_ℕ max_gold p.gold) in
    let value = pos_part (pos p.gold +ℤ clamped) in
    if-Inv (economy_pending p) _ _ h (λ free. if-Inv (value == p.gold) _ _ h (λ _.
      if-Inv (revision_exhausted p) _ _ h (λ _.
        record_mutation-Inv tt (record p { gold = value })
          (record { bag = h.bag; promise = Promises-nothing p free value p.bag }))))

set_pos-Inv : (x y dir : ℤ) (p : Player) → Inv p → Inv (set_pos x y dir p).1
unfolding set_pos
set_pos-Inv x y dir p h = if-Inv (eq_ℤ p.x x && (eq_ℤ p.y y && eq_ℤ p.dir dir)) _ _ h (λ _.
    if-Inv (revision_exhausted p) _ _ h (λ _.
      record_mutation-Inv tt (record p { x = x; y = y; dir = dir })
        (record { bag = h.bag; promise = h.promise })))

set_scene_id-Inv : (s : ℕ) (p : Player) → Inv p → Inv (set_scene_id s p).1
unfolding set_scene_id
set_scene_id-Inv s p h = if-Inv (s == 0) _ _ h (λ _. if-Inv (p.scene_id == s) _ _ h (λ _.
    if-Inv (revision_exhausted p) _ _ h (λ _.
      record_mutation-Inv tt (record p { scene_id = s })
        (record { bag = h.bag; promise = h.promise }))))

-- The changes of the bag while nothing is reserved.
new_bag-Inv :
    {A : Type 0} (a : A) (p : Player) (bag : Bag.Bag)
    → economy_pending p ≡ false
    → Invariant.Inv bag
    → Inv (record_mutation a (record p { bag = bag })).1
new_bag-Inv a p bag free v =
    record_mutation-Inv a (record p { bag = bag })
      (record { bag = v; promise = Promises-nothing p free p.gold bag })

with_bag-Inv :
    (r : Bool × Bag.Bag) (p : Player)
    → economy_pending p ≡ false
    → Inv p
    → Invariant.Inv r.1
    → Inv (with_bag r p).1
unfolding with_bag
with_bag-Inv (true, bag) p free h v = new_bag-Inv true p bag free v
with_bag-Inv (false, bag) p free h v = h

add_item-Inv : (k n : ℕ) (p : Player) → n < 2 ^ 16 → Inv p → Inv (add_item k n p).1
unfolding add_item
add_item-Inv k n p small h = if-Inv (economy_pending p) _ _ h (λ free.
    if-Inv (revision_exhausted p) _ _ h (λ _.
      with_bag-Inv (Bag.add_item p.bag k n) p free h
        (Invariant.add_item-Inv p.bag k n small h.bag)))

consume_item-Inv : (k n : ℕ) (p : Player) → Inv p → Inv (consume_item k n p).1
unfolding consume_item
consume_item-Inv k n p h = if-Inv (economy_pending p) _ _ h (λ free.
    if-Inv (revision_exhausted p) _ _ h (λ _.
      with_bag-Inv (Bag.reduce_item p.bag k n) p free h
        (Invariant.reduce_item-Inv p.bag k n h.bag)))

clear_bag-Inv : (p : Player) → Inv p → Inv (clear_bag p).1
unfolding clear_bag
clear_bag-Inv p h = if-Inv (economy_pending p) _ _ h (λ free.
    if-Inv (length p.bag.items == 0 && p.bag.next_slot == 0) _ _ h (λ _.
      if-Inv (revision_exhausted p) _ _ h
        (λ _. new_bag-Inv tt p (Bag.clear p.bag) free (clear-Inv p.bag h.bag))))

confirm_save-Inv : (v r : ℕ) (p : Player) → Inv p → Inv (confirm_save v r p)
unfolding confirm_save
confirm_save-Inv v r p h =
    elim (Bool-cases (ltb p.mutation_revision r || ltb v p.persisted_version)) [
      | inl e ↦ rw e h
      | inr e ↦ rw e (record { bag = h.bag; promise = h.promise })
    ]

default_bag-Inv : Invariant.Inv default_bag
default_bag-Inv = Invariant.create-Inv 64 default_bag (created)

restore_save_snapshot-Inv :
    (s : PlayerSaveSnapshot) (p : Player) → Fits s.items → Inv p → Inv (restore_save_snapshot s p).1
unfolding restore_save_snapshot
restore_save_snapshot-Inv s p small h =
    let r = Bag.restore default_bag s.bag_capacity s.bag_next_slot s.items in
    if-Inv (economy_pending p) _ _ h (λ free.
      if-Inv
        (s.player_id == 0
          || (ltb max_i64 s.player_id
              || (s.scene_id == 0
                  || (ltb max_i64 s.save_version
                      || (not (p.player_id == 0) && not (p.player_id == s.player_id))))))
        _ _ h
        (λ _. elim (Bool-cases r.0) [
          | inl e ↦ rw e (record {
            bag =
                restore-Inv default_bag s.bag_capacity s.bag_next_slot s.items small
                  default_bag-Inv;
            promise = Promises-nothing p free s.gold r.1;
          })
          | inr e ↦ rw e h
        ]))

reserve_with-Inv :
    (r : EconomyRequest) (s : PlayerSaveSnapshot) (p : Player)
    → r.count < 2 ^ 16
    → refuses_request r p ≡ false
    → Inv p
    → Inv (reserve_with r s p).1
unfolding reserve_with refuses_request
reserve_with-Inv r s p small ready h = elim (Option-cases (prepare_bag r p.bag)) [
  | inl e ↦ rw (e, reserve_with) h
  | inr (bag, e) ↦
      rw (e, reserve_with)
        (record {
          bag = h.bag;
          promise = record { paid = ground (arith, ready); prepared = e; small = small };
        })
]

reserve_economy-Inv :
    (r : EconomyRequest) (p : Player) → r.count < 2 ^ 16 → Inv p → Inv (reserve_economy r p).1
unfolding reserve_economy
reserve_economy-Inv r p small h = elim (Option-cases p.economy_reservation) [
  | inr (old, e) ↦ rw (e, reserve_economy) h
  | inl e ↦
      rw (e, reserve_economy)
        (if-Inv (refuses_request r p) _ _ h (λ ready. if-Inv (revision_exhausted p) _ _ h (λ _.
          elim (Result-cases (freeze_save_snapshot p.persisted_version 0 p)) [
            | inl (s, f) ↦ rw f (reserve_with-Inv r s p small ready h)
            | inr (x, f) ↦ rw f h
          ])))
]

-- The bag that a reservation has prepared.
pub prepare_bag_lem :
    (r : EconomyRequest) (b c : Bag.Bag)
    → Invariant.Inv b
    → r.count < 2 ^ 16
    → prepare_bag r b ≡ some c
    → Invariant.Inv c
      × ((j : ℕ)
          → Bag.count_of c j
            ≡ (if r.item_id == j then Bag.count_of b j + r.count else Bag.count_of b j))
unfolding prepare_bag
prepare_bag_lem r b c v small e =
    let copied = Bag.restore default_bag b.capacity b.next_slot (Bag.view b) in
    let added = Bag.add_item copied.1 r.item_id r.count in
    elim (Bool-cases (copied.0 && added.0)) [
      | inr f ↦ cc (rw f at e)
      | inl f ↦
          let bag : added.1 ≡ c = cc (rw f at e) in
          let both : (copied.0 ≡ true) × (added.0 ≡ true) =
            (ground (arith, f), ground (arith, f)) in
          let whole : copied ≡ (true, copied.1) = (λ i. (both.0 i, copied.1)) in
          let (w, same) = restore-view b default_bag copied.1 v default_bag-Inv whole in
          (
            rw (← bag) (Invariant.add_item-Inv copied.1 r.item_id r.count small w),
            λ j. rw (← bag, add_item-count_of copied.1 r.item_id r.count j, both.1, same j) refl,
          )
    ]

commit_economy-Inv : (id : List ℕ) (p : Player) → Inv p → Inv (commit_economy id p).1
unfolding commit_economy
commit_economy-Inv id p h = elim (Option-cases p.economy_reservation) [
  | inl e ↦ rw (e, commit_economy) h
  | inr (r, e) ↦
      let holds : Holds p.gold p.bag r = rw e at h.promise in
      rw (e, commit_economy)
        (if-Inv (not (same_id r.request.operation_id id)) _ _ h (λ _.
          if-Inv (revision_exhausted p) _ _ h (λ _.
            record_mutation-Inv true
              (record p {
                gold = r.candidate.gold;
                bag = r.prepared_bag;
                economy_reservation = none;
              })
              (record {
                bag =
                    (prepare_bag_lem r.request p.bag r.prepared_bag h.bag holds.small
                      holds.prepared).0;
                promise = tt;
              }))))
]

cancel_economy-Inv : (id : List ℕ) (p : Player) → Inv p → Inv (cancel_economy id p).1
unfolding cancel_economy
cancel_economy-Inv id p h = elim (Option-cases p.economy_reservation) [
  | inl e ↦ rw (e, cancel_economy) h
  | inr (r, e) ↦
      rw (e, cancel_economy)
        (if-Inv (not (same_id r.request.operation_id id)) _ _ h
          (λ _. record { bag = h.bag; promise = tt }))
]

step-Inv : (c : Call) (p : Player) → Inv p → Inv (step c p)
unfolding step modify_hp modify_mp
step-Inv (sets_hp v) p h = set_hp-Inv v p h
step-Inv (sets_mp v) p h = set_mp-Inv v p h
step-Inv (modifies_hp d) p h = set_hp-Inv (held max_hp (pos p.hp +ℤ d)) p h
step-Inv (modifies_mp d) p h = set_mp-Inv (held max_mp (pos p.mp +ℤ d)) p h
step-Inv (adds_gold d) p h = add_gold-Inv d p h
step-Inv (sets_pos x y dir) p h = set_pos-Inv x y dir p h
step-Inv (sets_scene_id s) p h = set_scene_id-Inv s p h
step-Inv (adds_item k n small) p h = add_item-Inv k n p small h
step-Inv (consumes_item k n small) p h = consume_item-Inv k n p h
step-Inv clears_bag p h = clear_bag-Inv p h
step-Inv (confirms_save v r) p h = confirm_save-Inv v r p h
step-Inv (loads s small) p h = restore_save_snapshot-Inv s p small h
step-Inv (reserves r small) p h = reserve_economy-Inv r p small h
step-Inv (commits id) p h = commit_economy-Inv id p h
step-Inv (cancels id) p h = cancel_economy-Inv id p h

pub run_player-Inv : (cs : List Call) (p : Player) → Inv p → Inv (run cs p)
unfolding run
run_player-Inv [] p h = h
run_player-Inv (c ∷ cs) p h = run_player-Inv cs (step c p) (step-Inv c p h)
