-- ===== src/Base/ClientControl.antt =====
-- The bodies of the control messages between clients and a gateway (the last part of
-- zone_common/base/clientProto.cc).
pub mod RoundTrip
mod Tests
use mmorpg_game_server.Common.{
  ℕ, zero, suc, ◌+◌, ◌-◌, ◌*◌, ◌/◌, ◌%◌, ◌^◌, ◌≤◌, ◌<◌, min, ◌≡◌, refl, sym, ap, ◌∙◌, ◌≢◌, ◌⊎◌, inl,
  inr, ◌↔◌, Bool, true, false, ◌&&◌, ◌||◌, not, Option, none, some, List, [], ◌∷◌, ◌++◌, map,
  append-nil, append_assoc, arith, ltb, leb, ◌==◌, if◌then◌else◌, Bool-cases, Option-cases, ==-refl,
  ltb→lt, lt→ltb, le→not_ltb, not_ltb→le, ==→eq, length, get_or, take, drop, replicate, retain,
  length-append, length-take, length-drop, length-replicate, take_all, drop_all, take-length-append,
  drop-length-append, drop-drop, drop-take, take-take, take-append-drop, take-append_le,
  drop-append_le, length-retain-le, All, All-append,
}
use mmorpg_game_server.Base.Bytes.{Bytes, put_le, get_le}

-- `&&` of reads that may fail.
infixl 1 ◌>>=◌
abbrev pub ◌>>=◌ {ℓ κ} : {A : Type ℓ} {B : Type κ} → Option A → (A → Option B) → Option B
none >>= f = none
some a >>= f = f a

-- `ClientGetU32` and `ClientGetU64`, for a number of `n` bytes: `none` where the string is short.
pub client_get : ℕ → Bytes → ℕ → Option ℕ
unfolding get_le
client_get n s offset = if ltb (length s) (offset + n) then none else some (get_le s offset n)

pub record AuthBody : Type 0 where
  pub player_id : ℕ
  pub ticket : ℕ

pub make_auth_body : AuthBody → Bytes
unfolding put_le
make_auth_body a = put_le 8 a.player_id ++ put_le 8 a.ticket

pub parse_auth_body : Bytes → Option AuthBody
unfolding client_get
parse_auth_body body = if not (length body == 16) then none else do
  player_id ← client_get 8 body 0
  ticket ← client_get 8 body 8
  some (record { player_id = player_id; ticket = ticket })

pub record AuthAckBody : Type 0 where
  pub player_id : ℕ
  pub session_id : ℕ
  pub epoch : ℕ
  pub zone_id : ℕ
  pub dst_service : ℕ

pub make_auth_ack_body : AuthAckBody → Bytes
unfolding put_le
make_auth_ack_body a =
    put_le 8 a.player_id
    ++ (put_le 8 a.session_id
        ++ (put_le 4 a.epoch ++ (put_le 4 a.zone_id ++ put_le 1 a.dst_service)))

pub parse_auth_ack_body : Bytes → Option AuthAckBody
unfolding client_get
parse_auth_ack_body body = if not (length body == 25) then none else do
  player_id ← client_get 8 body 0
  session_id ← client_get 8 body 8
  epoch ← client_get 4 body 16
  zone_id ← client_get 4 body 20
  some (record {
    player_id = player_id;
    session_id = session_id;
    epoch = epoch;
    zone_id = zone_id;
    dst_service = get_or body 24 0;
  })

pub make_service_body : ℕ → Bytes
make_service_body service_id = (service_id % 256) ∷ []

pub parse_service_body : Bytes → Option ℕ
parse_service_body body = if not (length body == 1) then none else some (get_or body 0 0)
