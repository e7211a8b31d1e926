-- ===== src/Base/GatewayPlayer/Index.antt =====
-- The network thread's index of player bindings (GatewayClientIndex in
-- zone_common/base/gatewayPlayer.h).
pub mod Consistency
mod Tests
use mmorpg_game_server.Common.{
  ℕ, zero, suc, ◌+◌, ◌-◌, ◌*◌, ◌/◌, ◌%◌, ◌^◌, ◌≤◌, ◌<◌, min, ◌≡◌, refl, sym, ap, ◌∙◌, ◌≢◌, ◌⊎◌, inl,
  inr, ◌↔◌, Bool, true, false, ◌&&◌, ◌||◌, not, Option, none, some, List, [], ◌∷◌, ◌++◌, map,
  append-nil, append_assoc, arith, ltb, leb, ◌==◌, if◌then◌else◌, Bool-cases, Option-cases, ==-refl,
  ltb→lt, not_ltb→le, ==→eq, length, get_or, take, drop, replicate, retain, length-append,
  length-take, length-drop, length-replicate, take_all, drop_all, take-length-append,
  drop-length-append, drop-drop, drop-take, take-take, take-append-drop, take-append_le,
  drop-append_le, length-retain-le, All, All-append,
}
use mmorpg_game_server.Common.Map.{Map, find, insert, erase, values}
use mmorpg_game_server.Base.GatewayPlayer.{ClientData, same_client_binding, valid}

-- `GatewayClientIndex`: the bindings of each connection, the connection of each player, and the last
-- binding of each player, which outlives its connection.
pub record Index : Type 0 where
  pub by_connection : Map (Map ClientData)
  pub connection_by_player : Map ℕ
  pub latest : Map ClientData

pub empty_index : Index
empty_index = record { by_connection = []; connection_by_player = []; latest = [] }

-- `byConnection_[connection]`, which makes an empty entry where none is.
abbrev pub bucket : ℕ → Map (Map ClientData) → Map ClientData
bucket c m = elim (find c m) [ none ↦ [] | some players ↦ players ]

-- `byConnection_[route->second].erase(d.playerId)`, if the player has a route.
drop_old_route : Index → ClientData → Map (Map ClientData)
drop_old_route s d = elim (find d.player_id s.connection_by_player) [
  | none ↦ s.by_connection
  | some old ↦ insert old (erase d.player_id (bucket old s.by_connection)) s.by_connection
]

-- The last three lines of `Bind`.
install : Index → ℕ → ClientData → Index
unfolding drop_old_route
install s connection d =
    let cleared = drop_old_route s d in
    record {
      by_connection = insert connection (insert d.player_id d (bucket connection cleared)) cleared;
      connection_by_player = insert d.player_id connection s.connection_by_player;
      latest = insert d.player_id d s.latest;
    }

abbrev pub routes_to : Index → ℕ → ℕ → Bool
routes_to s connection player = elim (find player s.connection_by_player) [
  | none ↦ false
  | some c ↦ c == connection
]

-- `Bind` where the player has been bound before.
rebind : Index → ℕ → ClientData → ClientData → Bool × Index
unfolding install
rebind s connection d old =
    if not (old.gateway_id == d.gateway_id) || not (old.scene_id == d.scene_id)
    then (false, s)
    else if ltb d.client_epoch old.client_epoch
    then (false, s)
    else if d.client_epoch == old.client_epoch
    then (same_client_binding old d && routes_to s connection d.player_id, s)
    else (true, install s connection d)

pub bind : Index → ℕ → ClientData → Bool × Index
unfolding rebind
bind s connection d =
    if connection == 0 || not (valid d) then (false, s) else elim (find d.player_id s.latest) [
      | none ↦ (true, install s connection d)
      | some old ↦ rebind s connection d old
    ]

pub matches : Index → ℕ → ClientData → Bool
matches s connection d = elim (find connection s.by_connection) [
  | none ↦ false
  | some players ↦ elim (find d.player_id players) [
    | none ↦ false
    | some p ↦ same_client_binding p d
  ]
]

pub unbind : Index → ℕ → ClientData → Bool × Index
unfolding matches
unbind s connection d = if not (matches s connection d) then (false, s) else (
  true,
  record s {
    by_connection =
        insert connection (erase d.player_id (bucket connection s.by_connection)) s.by_connection;
    connection_by_player = erase d.player_id s.connection_by_player;
  },
)

-- The loop of `Close` over the bindings of the connection.
erase_routes : Map ClientData → Map ℕ → Map ℕ
erase_routes [] routes = routes
erase_routes ((player, d) ∷ players) routes = erase_routes players (erase player routes)

pub close : Index → ℕ → List ClientData × Index
unfolding erase_routes
close s connection = elim (find connection s.by_connection) [
  | none ↦ ([], s)
  | some players ↦ (
    values players,
    record s {
      by_connection = erase connection s.by_connection;
      connection_by_player = erase_routes players s.connection_by_player;
    },
  )
]
