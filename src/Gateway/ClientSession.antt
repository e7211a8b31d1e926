-- ===== src/Gateway/ClientSession.antt =====
-- The gateway's table of client sessions (gatewayServer/clientSession.h and clientSession.cc).
pub mod Soundness
pub mod Binding
pub mod History
mod Tests
use mmorpg_game_server.Common.{
  ℕ, zero, suc, ◌+◌, ◌-◌, ◌*◌, ◌/◌, ◌%◌, ◌^◌, ◌≤◌, ◌<◌, min, ◌≡◌, refl, sym, ap, ◌∙◌, ◌≢◌, ◌⊎◌, inl,
  inr, ◌↔◌, Bool, true, false, ◌&&◌, ◌||◌, not, Option, none, some, List, [], ◌∷◌, ◌++◌, map,
  append-nil, append_assoc, arith, ltb, leb, ◌==◌, if◌then◌else◌, Bool-cases, Option-cases, ==-refl,
  ltb→lt, lt→ltb, le→not_ltb, not_ltb→le, ==→eq, length, get_or, take, drop, replicate, retain,
  length-append, length-take, length-drop, length-replicate, take_all, drop_all, take-length-append,
  drop-length-append, drop-drop, drop-take, take-take, take-append-drop, take-append_le,
  drop-append_le, length-retain-le, All, All-append,
}
use mmorpg_game_server.Common.Int.{ℤ, pos}
use mmorpg_game_server.Common.Map.{Map, find, insert, erase, values}

-- `ServerID::kScene`, and the largest `uint32_t`.
abbrev pub scene_service : ℕ
scene_service = 8

abbrev pub max_epoch : ℕ
max_epoch = 2 ^ 32 - 1

-- `ClientSession`. The connection is a handle, `none` for a null pointer; names are byte strings.
pub record ClientSession : Type 0 where
  pub session_id : ℕ
  pub epoch : ℕ
  pub player_id : ℕ
  pub dst_service : ℕ
  pub scene_id : ℕ
  pub backend_channel_id : ℕ
  pub scene_incarnation : ℕ
  pub scene_conn_name : List ℕ
  pub authed : Bool
  pub scene_online_submitted : Bool
  pub conn : Option ℕ
  pub created_at_ms : ℤ
  pub authed_at_ms : ℤ

-- `ClientSessionTable`. Each method holds the table's lock throughout, so calls do not overlap. The
-- counter of sessions does not reach 2 ^ 64.
pub record Table : Type 0 where
  pub sessions : Map ClientSession
  pub player_index : Map ℕ
  pub player_epoch : Map ℕ
  pub next_session_id : ℕ

pub empty_table : Table
empty_table = record { sessions = []; player_index = []; player_epoch = []; next_session_id = 1 }

pub create : Table → Option ℕ → ℕ → ℤ → ℕ × Table
create t conn default_dst_service now = (
  t.next_session_id,
  record t {
    sessions =
        insert t.next_session_id
          (record {
            session_id = t.next_session_id;
            epoch = 0;
            player_id = 0;
            dst_service = default_dst_service;
            scene_id = 0;
            backend_channel_id = 0;
            scene_incarnation = 0;
            scene_conn_name = [];
            authed = false;
            scene_online_submitted = false;
            conn = conn;
            created_at_ms = now;
            authed_at_ms = pos 0;
          })
          t.sessions;
    next_session_id = t.next_session_id + 1;
  },
)

abbrev pub get : Table → ℕ → Option ClientSession
get t session = find session t.sessions

pub find_by_player : Table → ℕ → Option ClientSession
find_by_player t player =
    if player == 0
    then none
    else elim (find player t.player_index) [ none ↦ none | some session ↦ get t session ]

-- `playerEpoch_[playerId]`, which makes an entry of 0 where none is.
abbrev pub epoch_in : Map ℕ → ℕ → ℕ
epoch_in epochs player = elim (find player epochs) [ none ↦ 0 | some e ↦ e ]

abbrev pub epoch_at : Table → ℕ → ℕ
epoch_at t player = epoch_in t.player_epoch player

set_epoch : Table → ℕ → ℕ → Table
set_epoch t player epoch = record t { player_epoch = insert player epoch t.player_epoch }

-- The session that makes way falls back to an unauthenticated one, and loses the index.
demote : Table → ℕ → Map ClientSession
demote t session = elim (get t session) [
  | none ↦ t.sessions
  | some old ↦ insert session (record old { authed = false; player_id = 0 }) t.sessions
]

kick : Table → ℕ → ℕ → Table
unfolding demote
kick t player session = record t {
  sessions = demote t session;
  player_index = erase player t.player_index;
}

-- The session's destination in the scene service, cleared.
abbrev clear_scene : ClientSession → ClientSession
clear_scene s = record s {
  scene_id = 0;
  backend_channel_id = 0;
  scene_incarnation = 0;
  scene_conn_name = [];
}

-- The bound session as `Bind` leaves it.
attached : ClientSession → ℕ → ℕ → ℕ → ℤ → ClientSession
attached s epoch player dst_service now =
    record (if s.dst_service == dst_service then s else clear_scene s) {
      player_id = player;
      dst_service = dst_service;
      authed = true;
      epoch = epoch;
      scene_online_submitted = false;
      authed_at_ms = now;
    }

attach : Table → ℕ → ClientSession → ℕ → ℕ → ℤ → Table
unfolding set_epoch attached
attach t session s player dst_service now =
    let epoch = epoch_at t player + 1 in
    record (set_epoch t player epoch) {
      sessions = insert session (attached s epoch player dst_service now) t.sessions;
      player_index = insert player session t.player_index;
    }

-- `Bind` once the session and the epoch are checked. The number is that of the kicked session, or 0.
rebind : Table → ℕ → ClientSession → ℕ → ℕ → ℤ → Bool × ℕ × Table
unfolding kick attach
rebind t session s player dst_service now = elim (find player t.player_index) [
  | none ↦ (true, 0, attach t session s player dst_service now)
  | some old ↦
      if old == session
      then (true, 0, attach t session s player dst_service now)
      else (true, old, attach (kick t player old) session s player dst_service now)
]

pub bind : Table → ℕ → ℕ → ℕ → ℤ → Bool × ℕ × Table
unfolding rebind set_epoch
bind t session player dst_service now =
    if player == 0 then (false, 0, t) else elim (get t session) [
      | none ↦ (false, 0, t)
      | some s ↦
          if epoch_at t player == max_epoch
          then (false, 0, set_epoch t player (epoch_at t player))
          else rebind (set_epoch t player (epoch_at t player)) session s player dst_service now
    ]

-- `SetDstService` for a session that is there.
redirect : Table → ℕ → ClientSession → ℕ → Bool × Table
unfolding set_epoch
redirect t session s dst_service =
    if s.dst_service == dst_service
    then (true, t)
    else let moved = record (clear_scene s) {
      dst_service = dst_service;
      scene_online_submitted = false;
    } in
      if not s.authed
      then (true, record t { sessions = insert session moved t.sessions })
      else if epoch_at t s.player_id == max_epoch
      then (false, set_epoch t s.player_id (epoch_at t s.player_id))
      else (
        true,
        record (set_epoch t s.player_id (epoch_at t s.player_id + 1)) {
          sessions =
              insert session (record moved { epoch = epoch_at t s.player_id + 1 }) t.sessions;
        },
      )

pub set_dst_service : Table → ℕ → ℕ → Bool × Table
unfolding redirect
set_dst_service t session dst_service = elim (get t session) [
  | none ↦ (false, t)
  | some s ↦ redirect t session s dst_service
]

-- Equality of names.
pub same_name : List ℕ → List ℕ → Bool
same_name [] [] = true
same_name [] (y ∷ ys) = false
same_name (x ∷ xs) [] = false
same_name (x ∷ xs) (y ∷ ys) = x == y && same_name xs ys

abbrev is_empty : List ℕ → Bool
is_empty [] = true
is_empty (x ∷ xs) = false

abbrev pub same_scene : ClientSession → ℕ → ℕ → ℕ → List ℕ → Bool
same_scene s scene_id channel_id incarnation conn_name =
    s.scene_id == scene_id
    && (s.backend_channel_id == channel_id
        && (s.scene_incarnation == incarnation && same_name s.scene_conn_name conn_name))

-- `SetSceneBinding` for a session that is there.
assign_scene : Table → ℕ → ClientSession → ℕ → ℕ → ℕ → List ℕ → Bool × Table
assign_scene t session s scene_id channel_id incarnation conn_name =
    if not s.authed || not (s.dst_service == scene_service)
    then (false, t)
    else if not (s.scene_id == 0)
    then (same_scene s scene_id channel_id incarnation conn_name, t)
    else (
      true,
      record t {
        sessions =
            insert session
              (record s {
                scene_id = scene_id;
                backend_channel_id = channel_id;
                scene_incarnation = incarnation;
                scene_conn_name = conn_name;
              })
              t.sessions;
      },
    )

pub set_scene_binding : Table → ℕ → ℕ → ℕ → ℕ → List ℕ → Bool × Table
unfolding assign_scene
set_scene_binding t session scene_id channel_id incarnation conn_name =
    if scene_id == 0 || incarnation == 0 || is_empty conn_name
    then (false, t)
    else elim (get t session) [
      | none ↦ (false, t)
      | some s ↦ assign_scene t session s scene_id channel_id incarnation conn_name
    ]

-- The checks of `SubmitScene`: the binding is complete, and still the expected one.
pub submittable : ClientSession → ClientSession → Bool
submittable s expected =
    s.authed
    && (not (s.player_id == 0)
        && (s.dst_service == scene_service
            && (not (s.scene_id == 0)
                && (not (s.scene_incarnation == 0)
                    && (not (is_empty s.scene_conn_name)
                        && (s.player_id == expected.player_id
                            && (s.epoch == expected.epoch
                                && (s.dst_service == expected.dst_service
                                    && same_scene s expected.scene_id expected.backend_channel_id
                                        expected.scene_incarnation expected.scene_conn_name))))))))

-- `SubmitScene`: `submit` is the caller's callback, which is told whether to announce the player
-- first and does not call the table again.
pub submit_scene : Table → ClientSession → (Bool → Bool) → Bool × Table
submit_scene t expected submit = elim (get t expected.session_id) [
  | none ↦ (false, t)
  | some s ↦
      if not (submittable s expected)
      then (false, t)
      else if not (submit (not s.scene_online_submitted))
      then (false, t)
      else (
        true,
        record t {
          sessions =
              insert expected.session_id (record s { scene_online_submitted = true }) t.sessions;
        },
      )
]

-- The index entry goes only if it still leads to this session.
release_index : Table → ℕ → ClientSession → Map ℕ
release_index t session s =
    if s.player_id == 0 then t.player_index else elim (find s.player_id t.player_index) [
      | none ↦ t.player_index
      | some owner ↦ if owner == session then erase s.player_id t.player_index else t.player_index
    ]

pub erase_session : Table → ℕ → Bool × Table
unfolding release_index
erase_session t session = elim (get t session) [
  | none ↦ (false, t)
  | some s ↦ (
    true,
    record t { sessions = erase session t.sessions; player_index = release_index t session s },
  )
]

pub authed_sessions : Table → List ClientSession
authed_sessions t =
    retain (λ s. s.authed && elim s.conn [ none ↦ false | some c ↦ true ]) (values t.sessions)
