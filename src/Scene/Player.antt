-- ===== src/Scene/Player.antt =====
-- A player's values, bag and economic reservation (sceneServer/src-cpp/player/player.h and
-- player.cc).
pub mod History
pub mod Economy
pub mod Commit
mod Tests
use mmorpg_game_server.Common.{
  ℕ, zero, suc, ◌+◌, ◌-◌, ◌*◌, ◌/◌, ◌%◌, ◌^◌, ◌≤◌, ◌<◌, min, ◌≡◌, refl, sym, ap, ◌∙◌, ◌≢◌, ◌⊎◌, inl,
  inr, ◌↔◌, Bool, true, false, ◌&&◌, ◌||◌, not, Option, none, some, List, [], ◌∷◌, ◌++◌, map,
  append-nil, append_assoc, arith, ltb, leb, ◌==◌, if◌then◌else◌, Bool-cases, Option-cases, ==-refl,
  ltb→lt, lt→ltb, le→not_ltb, not_ltb→le, ==→eq, length, get_or, take, drop, replicate, retain,
  length-append, length-take, length-drop, length-replicate, take_all, drop_all, take-length-append,
  drop-length-append, drop-drop, drop-take, take-take, take-append-drop, take-append_le,
  drop-append_le, length-retain-le, All, All-append,
}
use mmorpg_game_server.Common.Int.{ℤ, pos, negsuc, ◌+ℤ◌, sub_ℕ, ltb_ℤ, pos_part}
use mmorpg_game_server.Base.GatewayPlayer.{ClientData}
use mmorpg_game_server.Scene.Bag

-- The exceptions of the operations: `std::overflow_error`, `std::logic_error` and
-- `std::invalid_argument`.
pub data Exception : Type 0 where
  overflow_error logic_error invalid_argument : Exception

pub data Result (A : Type 0) : Type 0 where
  ok : A → Result A
  throws : Exception → Result A

-- `PlayerSaveSnapshot`
pub record PlayerSaveSnapshot : Type 0 where
  pub player_id : ℕ
  pub hp : ℕ
  pub mp : ℕ
  pub gold : ℕ
  pub x : ℤ
  pub y : ℤ
  pub dir : ℤ
  pub scene_id : ℕ
  pub bag_capacity : ℕ
  pub bag_next_slot : ℕ
  pub items : List Bag.ItemStack
  pub save_version : ℕ
  pub captured_revision : ℕ
  pub save_lifecycle_token : ℕ

pub record EconomyRequest : Type 0 where
  pub operation_id : List ℕ
  pub cost : ℕ
  pub item_id : ℕ
  pub count : ℕ
  pub rules_version : ℕ

pub record EconomyReservation : Type 0 where
  pub request : EconomyRequest
  pub candidate : PlayerSaveSnapshot
  pub prepared_bag : Bag.Bag

pub record Player : Type 0 where
  pub player_id : ℕ
  pub epoch : ℕ
  pub session : ℕ
  pub client_binding : ClientData
  pub hp : ℕ
  pub mp : ℕ
  pub gold : ℕ
  pub x : ℤ
  pub y : ℤ
  pub dir : ℤ
  pub scene_id : ℕ
  pub mutation_revision : ℕ
  pub persisted_version : ℕ
  pub persisted_revision : ℕ
  pub bag : Bag.Bag
  pub economy_reservation : Option EconomyReservation
  pub dirty : Bool
  pub last_active_ms : ℤ

abbrev pub max_hp : ℕ
max_hp = 65535

abbrev pub max_mp : ℕ
max_mp = 65535

abbrev pub max_gold : ℕ
max_gold = 0xFFFFFFFF

abbrev pub max_u64 : ℕ
max_u64 = 2 ^ 64 - 1

abbrev pub max_i64 : ℕ
max_i64 = 2 ^ 63 - 1

pub economy_pending : Player → Bool
economy_pending p = elim p.economy_reservation [ none ↦ false | some r ↦ true ]

-- `ensureRevisionAvailable`, as a test: whether it throws.
abbrev pub revision_exhausted : Player → Bool
revision_exhausted p = p.mutation_revision == max_u64

pub record_mutation : {A : Type 0} → A → Player → Result A × Player
record_mutation a p =
    if revision_exhausted p
    then (throws overflow_error, p)
    else (ok a, record p { mutation_revision = p.mutation_revision + 1; dirty = true })

pub set_hp : ℕ → Player → Result Unit × Player
unfolding record_mutation
set_hp value p =
    if p.hp == value
    then (ok tt, p)
    else if revision_exhausted p
    then (throws overflow_error, p)
    else record_mutation tt (record p { hp = value })

pub set_mp : ℕ → Player → Result Unit × Player
unfolding record_mutation
set_mp value p =
    if p.mp == value
    then (ok tt, p)
    else if revision_exhausted p
    then (throws overflow_error, p)
    else record_mutation tt (record p { mp = value })

-- A sum held between 0 and `top`.
pub held : ℕ → ℤ → ℕ
held top v = if ltb_ℤ v (pos 0) then 0 else if ltb_ℤ (pos top) v then top else pos_part v

pub modify_hp : ℤ → Player → Result Unit × Player
unfolding held set_hp
modify_hp delta p = set_hp (held max_hp (pos p.hp +ℤ delta)) p

pub modify_mp : ℤ → Player → Result Unit × Player
unfolding held set_mp
modify_mp delta p = set_mp (held max_mp (pos p.mp +ℤ delta)) p

-- `std::clamp`
pub clamp : ℤ → ℤ → ℤ → ℤ
clamp v low high = if ltb_ℤ v low then low else if ltb_ℤ high v then high else v

pub add_gold : ℤ → Player → Result Unit × Player
unfolding economy_pending clamp record_mutation
add_gold delta p =
    let clamped = clamp delta (sub_ℕ 0 p.gold) (sub_ℕ max_gold p.gold) in
    let value = pos_part (pos p.gold +ℤ clamped) in
    if economy_pending p
    then (throws logic_error, p)
    else if value == p.gold
    then (ok tt, p)
    else if revision_exhausted p
    then (throws overflow_error, p)
    else record_mutation tt (record p { gold = value })

pub eq_ℤ : ℤ → ℤ → Bool
eq_ℤ a b = not (ltb_ℤ a b) && not (ltb_ℤ b a)

pub set_pos : ℤ → ℤ → ℤ → Player → Result Unit × Player
unfolding eq_ℤ record_mutation
set_pos x y dir p =
    if eq_ℤ p.x x && (eq_ℤ p.y y && eq_ℤ p.dir dir)
    then (ok tt, p)
    else if revision_exhausted p
    then (throws overflow_error, p)
    else record_mutation tt (record p { x = x; y = y; dir = dir })

pub set_scene_id : ℕ → Player → Result Unit × Player
unfolding record_mutation
set_scene_id scene_id p =
    if scene_id == 0
    then (throws invalid_argument, p)
    else if p.scene_id == scene_id
    then (ok tt, p)
    else if revision_exhausted p
    then (throws overflow_error, p)
    else record_mutation tt (record p { scene_id = scene_id })

-- The end of `addItem` and of `consumeItem`, from the answer and the bag of the call on the bag.
pub with_bag : Bool × Bag.Bag → Player → Result Bool × Player
unfolding record_mutation
with_bag (done, bag) p =
    if done then record_mutation true (record p { bag = bag }) else (ok false, p)

pub add_item : ℕ → ℕ → Player → Result Bool × Player
unfolding economy_pending with_bag
add_item item_id count p =
    if economy_pending p
    then (ok false, p)
    else if revision_exhausted p
    then (throws overflow_error, p)
    else with_bag (Bag.add_item p.bag item_id count) p

pub consume_item : ℕ → ℕ → Player → Result Bool × Player
unfolding economy_pending with_bag
consume_item item_id count p =
    if economy_pending p
    then (ok false, p)
    else if revision_exhausted p
    then (throws overflow_error, p)
    else with_bag (Bag.reduce_item p.bag item_id count) p

pub clear_bag : Player → Result Unit × Player
unfolding economy_pending record_mutation
clear_bag p =
    if economy_pending p
    then (throws logic_error, p)
    else if length p.bag.items == 0 && p.bag.next_slot == 0
    then (ok tt, p)
    else if revision_exhausted p
    then (throws overflow_error, p)
    else record_mutation tt (record p { bag = Bag.clear p.bag })

pub confirm_save : ℕ → ℕ → Player → Player
confirm_save version revision p =
    if ltb p.mutation_revision revision || ltb version p.persisted_version then p else record p {
      persisted_version = version;
      persisted_revision = revision;
      dirty = if revision == p.mutation_revision then false else p.dirty;
    }

-- The snapshot of `freezeSaveSnapshot`, for a version that the database can hold.
snapshot_of : ℕ → ℕ → Player → PlayerSaveSnapshot
snapshot_of save_version token p = record {
  player_id = p.player_id;
  hp = p.hp;
  mp = p.mp;
  gold = p.gold;
  x = p.x;
  y = p.y;
  dir = p.dir;
  scene_id = p.scene_id;
  bag_capacity = p.bag.capacity % 2 ^ 32;
  bag_next_slot = p.bag.next_slot;
  items = Bag.view p.bag;
  save_version = save_version;
  captured_revision = p.mutation_revision;
  save_lifecycle_token = token;
}

pub freeze_save_snapshot : ℕ → ℕ → Player → Result PlayerSaveSnapshot
unfolding snapshot_of
freeze_save_snapshot save_version token p =
    if ltb max_i64 save_version
    then throws invalid_argument
    else ok (snapshot_of save_version token p)

-- The bag of a player before a restore.
abbrev pub default_bag : Bag.Bag
default_bag = record { capacity = 64; next_slot = 0; items = [] }

pub restore_save_snapshot : PlayerSaveSnapshot → Player → Bool × Player
unfolding economy_pending
restore_save_snapshot s p =
    let (done, bag) = Bag.restore default_bag s.bag_capacity s.bag_next_slot s.items in
    if economy_pending p
    then (false, p)
    else if s.player_id == 0
        || (ltb max_i64 s.player_id
            || (s.scene_id == 0
                || (ltb max_i64 s.save_version
                    || (not (p.player_id == 0) && not (p.player_id == s.player_id)))))
    then (false, p)
    else if done
    then (
      true,
      record p {
        bag = bag;
        player_id = s.player_id;
        hp = s.hp;
        mp = s.mp;
        gold = s.gold;
        x = s.x;
        y = s.y;
        dir = s.dir;
        scene_id = s.scene_id;
        mutation_revision = 0;
        persisted_version = s.save_version;
        persisted_revision = 0;
        dirty = false;
      },
    )
    else (false, p)

pub same_id : List ℕ → List ℕ → Bool
same_id [] [] = true
same_id [] (b ∷ bs) = false
same_id (a ∷ xs) [] = false
same_id (a ∷ xs) (b ∷ bs) = a == b && same_id xs bs

pub same_request : EconomyRequest → EconomyRequest → Bool
unfolding same_id
same_request a b =
    same_id a.operation_id b.operation_id
    && (a.cost == b.cost
        && (a.item_id == b.item_id && (a.count == b.count && a.rules_version == b.rules_version)))

-- The guards of `reserveEconomy`.
pub refuses_request : EconomyRequest → Player → Bool
refuses_request r p =
    p.player_id == 0
    || (length r.operation_id == 0
        || (ltb 128 (length r.operation_id)
            || (r.item_id == 0 || (r.count == 0 || (r.rules_version == 0 || ltb p.gold r.cost)))))

-- The bag of the reservation: a copy of the player's, with the item added.
pub prepare_bag : EconomyRequest → Bag.Bag → Option Bag.Bag
prepare_bag r b =
    let (copied, copy) = Bag.restore default_bag b.capacity b.next_slot (Bag.view b) in
    let (added, bag) = Bag.add_item copy r.item_id r.count in
    if copied && added then some bag else none

-- The rest of `reserveEconomy`.
pub reserve_with : EconomyRequest → PlayerSaveSnapshot → Player → Result Bool × Player
unfolding prepare_bag
reserve_with r snapshot p = elim (prepare_bag r p.bag) [
  | none ↦ (ok false, p)
  | some bag ↦
      let candidate : PlayerSaveSnapshot = record snapshot {
        gold = p.gold - r.cost;
        items = Bag.view bag;
        bag_next_slot = bag.next_slot;
      } in
      let reservation : EconomyReservation = record {
        request = r;
        candidate = candidate;
        prepared_bag = bag;
      } in
      (ok true, record p { economy_reservation = some reservation })
]

pub reserve_economy : EconomyRequest → Player → Result Bool × Player
unfolding same_request refuses_request freeze_save_snapshot reserve_with
reserve_economy r p = elim p.economy_reservation [
  | some reservation ↦ (ok (same_request reservation.request r), p)
  | none ↦
      if refuses_request r p
      then (ok false, p)
      else if revision_exhausted p
      then (throws overflow_error, p)
      else elim (freeze_save_snapshot p.persisted_version 0 p) [
        | throws e ↦ (throws e, p)
        | ok snapshot ↦ reserve_with r snapshot p
      ]
]

pub commit_economy : List ℕ → Player → Result Bool × Player
unfolding same_id record_mutation
commit_economy operation_id p = elim p.economy_reservation [
  | none ↦ (ok false, p)
  | some r ↦
      if not (same_id r.request.operation_id operation_id)
      then (ok false, p)
      else if revision_exhausted p
      then (throws overflow_error, p)
      else record_mutation true
          (record p { gold = r.candidate.gold; bag = r.prepared_bag; economy_reservation = none })
]

pub cancel_economy : List ℕ → Player → Bool × Player
unfolding same_id
cancel_economy operation_id p = elim p.economy_reservation [
  | none ↦ (false, p)
  | some r ↦
      if not (same_id r.request.operation_id operation_id)
      then (false, p)
      else (true, record p { economy_reservation = none })
]
