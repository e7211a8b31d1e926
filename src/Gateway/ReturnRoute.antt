-- ===== src/Gateway/ReturnRoute.antt =====
-- The gateway's table of return routes (gatewayServer/returnRoute.h and returnRoute.cc), by the
-- internal sequence number that stands for a client's request on the backend link.
pub mod Laws
mod Tests
use mmorpg_game_server.Common.{
  ℕ, zero, suc, ◌+◌, ◌-◌, ◌*◌, ◌/◌, ◌%◌, ◌^◌, ◌≤◌, ◌<◌, min, ◌≡◌, refl, sym, ap, ◌∙◌, ◌≢◌, ◌⊎◌, inl,
  inr, ◌↔◌, Bool, true, false, ◌&&◌, ◌||◌, not, Option, none, some, List, [], ◌∷◌, ◌++◌, map,
  append-nil, append_assoc, arith, ltb, leb, ◌==◌, if◌then◌else◌, Bool-cases, Option-cases, ==-refl,
  ltb→lt, lt→ltb, le→not_ltb, not_ltb→le, ==→eq, length, get_or, drop, replicate, retain,
  length-append, length-take, length-drop, length-replicate, take_all, drop_all, take-length-append,
  drop-length-append, drop-drop, drop-take, take-take, take-append-drop, take-append_le,
  drop-append_le, length-retain-le, All, All-append,
}
use mmorpg_game_server.Common.Int.{ℤ, pos, ◌-ℤ◌, ltb_ℤ}
use mmorpg_game_server.Common.Map.{Map, find, insert, erase}

-- `ReturnRoute`: where the answer to a forwarded request goes. A name is a string of bytes, a time
-- an `int64_t`, which the gateway's clock keeps far from its bounds.
pub record ReturnRoute : Type 0 where
  pub internal_seq : ℕ
  pub client_session_id : ℕ
  pub client_request_id : ℕ
  pub backend_service_id : ℕ
  pub backend_zone_id : ℕ
  pub backend_scene_id : ℕ
  pub backend_channel_id : ℕ
  pub backend_scene_incarnation : ℕ
  pub backend_conn_name : List ℕ
  pub player_id : ℕ
  pub module_id : ℕ
  pub method_id : ℕ
  pub session_epoch : ℕ
  pub created_at_ms : ℤ

-- `ReturnRouteTable`. Each method holds the table's lock throughout, so calls do not overlap.
abbrev pub Table : Type 0
Table = Map ReturnRoute

pub add : Table → ReturnRoute → ℕ → Bool × Table
add t r max_size =
    if r.internal_seq == 0
    then (false, t)
    else if leb max_size (length t)
    then (false, t)
    else (true, insert r.internal_seq r t)

-- `Take`: the route, which leaves the table; `none` where the source returns false.
pub take : Table → ℕ → Option ReturnRoute × Table
take t seq = elim (find seq t) [ none ↦ (none, t) | some r ↦ (some r, erase seq t) ]

pub get : Table → ℕ → Option ReturnRoute
get t seq = find seq t

-- The loop that erases the routes that pass a test, and counts them.
erase_if : (ReturnRoute → Bool) → Table → ℕ × Table
erase_if p [] = (0, [])
erase_if p ((seq, r) ∷ t) =
    let (n, kept) = erase_if p t in if p r then (n + 1, kept) else (n, (seq, r) ∷ kept)

abbrev pub of_session : ℕ → ReturnRoute → Bool
of_session session r = r.client_session_id == session

-- `nowMs - createdAtMs > ttlMs`
abbrev pub is_expired : ℤ → ℕ → ReturnRoute → Bool
is_expired now ttl r = ltb_ℤ (pos ttl) (now -ℤ r.created_at_ms)

pub erase_by_session : Table → ℕ → ℕ × Table
unfolding erase_if
erase_by_session t session = erase_if (of_session session) t

pub sweep : Table → ℤ → ℕ → ℕ × Table
unfolding erase_if
sweep t now ttl = erase_if (is_expired now ttl) t

-- `SweepExpired` also returns the routes that it erases.
pub sweep_expired : Table → ℤ → ℕ → List ReturnRoute × Table
sweep_expired [] now ttl = ([], [])
sweep_expired ((seq, r) ∷ t) now ttl =
    let (expired, kept) = sweep_expired t now ttl in
    if is_expired now ttl r then (r ∷ expired, kept) else (expired, (seq, r) ∷ kept)

pub size : Table → ℕ
size t = length t
