-- ===== src/Scene/Aoi/ClientView/Messages.antt =====
-- What is sent to a client and what it leaves in the baseline
-- (sceneServer/src-cpp/service/aoi/aoiClientView.cc, aoiTypes.h and aoiPushSink.h).
use mmorpg_game_server.Common.{
  ℕ, ◌-◌, ◌%◌, ◌^◌, Bool, true, false, ◌&&◌, not, none, some, List, [], ◌∷◌, map, ltb, ◌==◌,
  if◌then◌else◌, retain,
}
use mmorpg_game_server.Common.Int.{ℤ, pos, negsuc}
use mmorpg_game_server.Common.Map.{Map, find, insert, has}
use mmorpg_game_server.Scene.Aoi.ViewSet.{ViewBaseline, SentEntityState, AcceptedPush, AoiMsgKind}

-- `AoiEntity`, without the members that only the replica reads.
pub record AoiEntity : Type 0 where
  pub entity_id : ℕ
  pub kind : ℕ
  pub business_id : ℕ
  pub x : ℕ
  pub y : ℕ
  pub dir : ℤ
  pub entity_generation : ℕ
  pub actor_epoch : ℕ
  pub spatial_version : ℕ

-- `gs::ViewEntity`
pub record ViewEntity : Type 0 where
  pub entity_id : ℕ
  pub business_id : ℕ
  pub entity_kind : ℕ
  pub entity_generation : ℕ
  pub spatial_version : ℕ
  pub actor_epoch : ℕ
  pub x : ℤ
  pub y : ℤ
  pub dir : ℤ

-- A snapshot part has its snapshot, sequence number, index, number of parts and entities; a delta
-- has its sequence number and the entities entered, moved and left.
pub data Message : Type 0 where
  snapshot_part : ℕ → ℕ → ℕ → ℕ → List ViewEntity → Message
  view_delta : ℕ → List ViewEntity → List ViewEntity → List ViewEntity → Message

-- `AoiClientPushRequest`, with the message in place of its encoding.
pub record ClientPush : Type 0 where
  pub observer_player_id : ℕ
  pub client_view_epoch : ℕ
  pub message : Message

abbrev pub part_size : ℕ
part_size = 128

-- `static_cast<int32_t>` and `static_cast<Position>`
abbrev pub int32_of : ℕ → ℤ
int32_of n = if ltb n (2 ^ 31) then pos n else negsuc (2 ^ 32 - 1 - n)

abbrev pub position_of : ℤ → ℕ
position_of (pos n) = n % 2 ^ 32
position_of (negsuc n) = 2 ^ 32 - 1 - n % 2 ^ 32

pub to_proto : AoiEntity → ViewEntity
to_proto entity = record {
  entity_id = entity.entity_id;
  business_id = entity.business_id;
  entity_kind = entity.kind;
  entity_generation = entity.entity_generation;
  spatial_version = entity.spatial_version;
  actor_epoch = entity.actor_epoch;
  x = int32_of entity.x;
  y = int32_of entity.y;
  dir = entity.dir;
}

-- The sort of `CurrentView`.
unfoldable pub insert_entity : AoiEntity → List AoiEntity → List AoiEntity
insert_entity entity [] = entity ∷ []
insert_entity entity (e ∷ es) =
    if ltb entity.entity_id e.entity_id then entity ∷ e ∷ es else e ∷ insert_entity entity es

unfoldable pub sort_view : List AoiEntity → List AoiEntity
unfolding insert_entity
sort_view [] = []
sort_view (e ∷ es) = insert_entity e (sort_view es)

-- The state `ToBaseline` stores.
unfoldable pub sent_state : AoiEntity → SentEntityState
sent_state entity = record {
  kind = entity.kind;
  business_id = entity.business_id;
  entity_generation = entity.entity_generation;
  spatial_version = entity.spatial_version;
  x = int32_of entity.x;
  y = int32_of entity.y;
  dir = entity.dir;
}

-- `emplace`
unfoldable pub emplace : ℕ → SentEntityState → ViewBaseline → ViewBaseline
emplace k state m = if has k m then m else insert k state m

unfoldable pub to_baseline_from : ViewBaseline → List AoiEntity → ViewBaseline
unfolding emplace sent_state
to_baseline_from m [] = m
to_baseline_from m (e ∷ es) = to_baseline_from (emplace e.entity_id (sent_state e) m) es

unfoldable pub to_baseline : List AoiEntity → ViewBaseline
unfolding to_baseline_from
to_baseline es = to_baseline_from [] es

-- The sort of the frozen baseline, and the entity a snapshot part shows for an entry of it.
insert_key : ℕ × SentEntityState → Map SentEntityState → Map SentEntityState
insert_key entry [] = entry ∷ []
insert_key entry (e ∷ es) = if ltb entry.0 e.0 then entry ∷ e ∷ es else e ∷ insert_key entry es

pub sort_by_key : Map SentEntityState → Map SentEntityState
unfolding insert_key
sort_by_key [] = []
sort_by_key (e ∷ es) = insert_key e (sort_by_key es)

pub state_entity : ℕ × SentEntityState → AoiEntity
state_entity (id, state) = record {
  entity_id = id;
  kind = state.kind;
  business_id = state.business_id;
  x = position_of state.x;
  y = position_of state.y;
  dir = state.dir;
  entity_generation = state.entity_generation;
  actor_epoch = 0;
  spatial_version = state.spatial_version;
}

-- The tests of the loop over the view.
unfoldable pub is_entered : ViewBaseline → AoiEntity → Bool
is_entered baseline entity = elim (find entity.entity_id baseline) [
  | none ↦ true
  | some old ↦ not (old.entity_generation == entity.entity_generation)
]

unfoldable pub is_moved : ViewBaseline → AoiEntity → Bool
is_moved baseline entity = elim (find entity.entity_id baseline) [
  | none ↦ false
  | some old ↦
      old.entity_generation == entity.entity_generation
      && not (old.spatial_version == entity.spatial_version)
]

pub entered_of : List AoiEntity → ViewBaseline → List ViewEntity
unfolding is_entered
entered_of current baseline = map to_proto (retain (is_entered baseline) current)

pub moved_of : List AoiEntity → ViewBaseline → List ViewEntity
unfolding is_moved
moved_of current baseline = map to_proto (retain (is_moved baseline) current)

-- What the list initialiser of an accepted push names; the place and the direction stay 0.
unfoldable pub pushed_state : AoiEntity → SentEntityState
pushed_state entity = record {
  kind = entity.kind;
  business_id = entity.business_id;
  entity_generation = entity.entity_generation;
  spatial_version = entity.spatial_version;
  x = pos 0;
  y = pos 0;
  dir = pos 0;
}

unfoldable pub change_push : AoiMsgKind → AoiEntity → AcceptedPush
unfolding pushed_state
change_push kind entity = record {
  kind = kind;
  target_id = entity.entity_id;
  state = pushed_state entity;
}

-- The pushes that the loop over the view accepts.
unfoldable pub accepted_changes : List AoiEntity → ViewBaseline → List AcceptedPush
unfolding is_entered is_moved change_push
accepted_changes [] baseline = []
accepted_changes (e ∷ es) baseline =
    let rest = accepted_changes es baseline in
    if is_entered baseline e
    then change_push AoiMsgKind.entry e ∷ rest
    else if is_moved baseline e
    then change_push AoiMsgKind.move e ∷ rest
    else rest

-- `std::lower_bound` on the sorted view, and the test of what it finds.
unfoldable pub in_view : ℕ → List AoiEntity → Bool
in_view id [] = false
in_view id (e ∷ es) = if ltb e.entity_id id then in_view id es else e.entity_id == id

pub left_entity : ℕ × SentEntityState → ViewEntity
left_entity (id, old) = record {
  entity_id = id;
  business_id = old.business_id;
  entity_kind = old.kind;
  entity_generation = old.entity_generation;
  spatial_version = old.spatial_version;
  actor_epoch = 0;
  x = old.x;
  y = old.y;
  dir = old.dir;
}

pub left_of : List AoiEntity → ViewBaseline → List ViewEntity
unfolding in_view
left_of current baseline = map left_entity (retain (λ e. not (in_view e.0 current)) baseline)

-- The pushes that the loop over the baseline accepts.
unfoldable pub accepted_leaves : List AoiEntity → ViewBaseline → List AcceptedPush
unfolding in_view
accepted_leaves current [] = []
accepted_leaves current ((id, old) ∷ m) =
    let rest = accepted_leaves current m in
    if in_view id current
    then rest
    else record { kind = AoiMsgKind.leave; target_id = id; state = old } ∷ rest
