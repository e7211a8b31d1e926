-- ===== src/Base/GatewayPlayer/Index/Consistency.antt =====
-- What the index keeps true: one connection at most for a player, and epochs that never fall.
use mmorpg_game_server.Common.{
  ℕ, ◌≤◌, ◌≡◌, refl, inl, inr, true, false, none, some, List, [], ◌∷◌, arith, ◌==◌, if◌then◌else◌,
  Option-cases,
}
use mmorpg_game_server.Common.Map.{
  Map, find, insert, erase, has, find-insert, find-insert_self, find-erase,
}
use mmorpg_game_server.Base.GatewayPlayer.{ClientData, same_client_binding}
use mmorpg_game_server.Base.GatewayPlayer.Index.{
  Index, bucket, drop_old_route, install, routes_to, rebind, bind, matches, unbind, erase_routes,
  close, empty_index,
}

-- The connections' bindings and the players' routes say the same: a connection holds a binding of a
-- player exactly when the player's route leads to it.
abbrev pub Consistent : Index → Type 0
Consistent s = (c p : ℕ) → has p (bucket c s.by_connection) ≡ routes_to s c p

bucket-insert :
    (k c : ℕ) (v : Map ClientData) (m : Map (Map ClientData))
    → bucket c (insert k v m) ≡ (if k == c then v else bucket c m)
bucket-insert k c v m = ground (arith, find-insert k c v m)

bucket-erase :
    (k c : ℕ) (m : Map (Map ClientData))
    → bucket c (erase k m) ≡ (if k == c then [] else bucket c m)
bucket-erase k c m = ground (arith, find-erase k c m)

has-insert :
    (k p : ℕ) (v : ClientData) (m : Map ClientData)
    → has p (insert k v m) ≡ (if k == p then true else has p m)
has-insert k p v m = ground (arith, find-insert k p v m)

has-erase : (k p : ℕ) (m : Map ClientData) → has p (erase k m) ≡ (if k == p then false else has p m)
has-erase k p m = ground (arith, find-erase k p m)

drop_old_route_lem :
    (s : Index) (d : ClientData) (c p : ℕ)
    → Consistent s
    → has p (bucket c (drop_old_route s d)) ≡ (if d.player_id == p then false else routes_to s c p)
unfolding drop_old_route
drop_old_route_lem s d c p h = elim (Option-cases (find d.player_id s.connection_by_player)) [
  | inl e ↦ rw (e, drop_old_route) (ground (arith, h c p, e))
  | inr (old, e) ↦
      rw (e, drop_old_route)
        (ground (
          arith,
          h c p,
          e,
          bucket-insert old c (erase d.player_id (bucket old s.by_connection)) s.by_connection,
          has-erase d.player_id p (bucket old s.by_connection),
          h old p,
        ))
]

install-Consistent :
    (s : Index) (connection : ℕ) (d : ClientData)
    → Consistent s
    → Consistent (install s connection d)
unfolding install
install-Consistent s connection d h c p = ground (
  arith,
  drop_old_route_lem s d c p h,
  drop_old_route_lem s d connection p h,
  bucket-insert connection c (insert d.player_id d (bucket connection (drop_old_route s d)))
      (drop_old_route s d),
  has-insert d.player_id p d (bucket connection (drop_old_route s d)),
  find-insert d.player_id p connection s.connection_by_player,
)

same_client_binding_refl : (d : ClientData) → same_client_binding d d ≡ true
unfolding same_client_binding
same_client_binding_refl d = ground arith

pub bind-Consistent :
    (s : Index) (connection : ℕ) (d : ClientData)
    → Consistent s
    → Consistent (bind s connection d).1
unfolding bind rebind
bind-Consistent s connection d h c p =
    ground (arith, h c p, install-Consistent s connection d h c p)

unbind-Consistent :
    (s : Index) (connection : ℕ) (d : ClientData)
    → Consistent s
    → Consistent (unbind s connection d).1
unfolding unbind matches
unbind-Consistent s connection d h c p = ground (
  arith,
  h c p,
  h connection d.player_id,
  h c d.player_id,
  bucket-insert connection c (erase d.player_id (bucket connection s.by_connection))
      s.by_connection,
  has-erase d.player_id p (bucket connection s.by_connection),
  find-erase d.player_id p s.connection_by_player,
)

find-erase_routes :
    (players : Map ClientData) (routes : Map ℕ) (p : ℕ)
    → find p (erase_routes players routes) ≡ (if has p players then none else find p routes)
unfolding erase_routes
find-erase_routes [] routes p = refl
find-erase_routes ((q, d) ∷ players) routes p =
    ground (arith, find-erase_routes players (erase q routes) p, find-erase q p routes)

close-Consistent : (s : Index) (connection : ℕ) → Consistent s → Consistent (close s connection).1
unfolding close
close-Consistent s connection h c p = elim (Option-cases (find connection s.by_connection)) [
  | inl e ↦ rw (e, close) (h c p)
  | inr (players, e) ↦
      rw (e, close)
        (ground (
          arith,
          h c p,
          e,
          h connection p,
          bucket-erase connection c s.by_connection,
          find-erase_routes players s.connection_by_player p,
        ))
]

-- A call on the index, with the connection that it comes from.
pub data Call : Type 0 where
  binds unbinds : ℕ → ClientData → Call
  closes : ℕ → Call

unfoldable pub step : Index → Call → Index
step s (binds connection d) = (bind s connection d).1
step s (unbinds connection d) = (unbind s connection d).1
step s (closes connection) = (close s connection).1

unfoldable pub run : Index → List Call → Index
run s [] = s
run s (call ∷ calls) = run (step s call) calls

pub step-Consistent : (s : Index) (call : Call) → Consistent s → Consistent (step s call)
unfolding step
step-Consistent s (binds connection d) h = bind-Consistent s connection d h
step-Consistent s (unbinds connection d) h = unbind-Consistent s connection d h
step-Consistent s (closes connection) h = close-Consistent s connection h

run-Consistent : (s : Index) (calls : List Call) → Consistent s → Consistent (run s calls)
unfolding run
run-Consistent s [] h = h
run-Consistent s (call ∷ calls) h = run-Consistent (step s call) calls (step-Consistent s call h)

empty_index-Consistent : Consistent empty_index
unfolding empty_index
empty_index-Consistent c p = refl

-- After any history of binds, unbinds and closed connections, two connections never hold a binding
-- of the same player.
pub run-exclusive :
    (calls : List Call) (c c' p : ℕ)
    → has p (bucket c (run empty_index calls).by_connection) ≡ true
    → has p (bucket c' (run empty_index calls).by_connection) ≡ true
    → c ≡ c'
run-exclusive calls c c' p a b =
    let h = run-Consistent empty_index calls empty_index-Consistent in ground (arith, h c p, h c' p)

-- The epoch of the last binding of a player, 0 where the player was never bound.
abbrev pub epoch_of : Index → ℕ → ℕ
epoch_of s p = elim (find p s.latest) [ none ↦ 0 | some d ↦ d.client_epoch ]

bind_epoch :
    (s : Index) (connection : ℕ) (d : ClientData) (p : ℕ)
    → epoch_of s p ≤ epoch_of (bind s connection d).1 p
unfolding bind rebind install
bind_epoch s connection d p = ground (arith, find-insert d.player_id p d s.latest)

step_epoch : (s : Index) (call : Call) (p : ℕ) → epoch_of s p ≤ epoch_of (step s call) p
unfolding step unbind close
step_epoch s (binds connection d) p = bind_epoch s connection d p
step_epoch s (unbinds connection d) p = ground arith
step_epoch s (closes connection) p = ground arith

-- The epoch of a player's last binding never falls, whatever is bound, unbound and closed.
pub run_epoch : (s : Index) (calls : List Call) (p : ℕ) → epoch_of s p ≤ epoch_of (run s calls) p
unfolding run
run_epoch s [] p = omega arith
run_epoch s (call ∷ calls) p = omega (arith, step_epoch s call p, run_epoch (step s call) calls p)

-- A binding that a connection holds is the last one of its player.
abbrev pub Current : Index → Type 0
Current s =
    (c p : ℕ) (d : ClientData)
    → find p (bucket c s.by_connection) ≡ some d
    → find p s.latest ≡ some d

find-drop_old_route :
    (s : Index) (d x : ClientData) (c p : ℕ)
    → find p (bucket c (drop_old_route s d)) ≡ some x
    → find p (bucket c s.by_connection) ≡ some x
unfolding drop_old_route
find-drop_old_route s d x c p e = elim (Option-cases (find d.player_id s.connection_by_player)) [
  | inl n ↦ rw (n, drop_old_route) at e
  | inr (old, n) ↦ ground (
    arith,
    rw (n, drop_old_route) at e,
    bucket-insert old c (erase d.player_id (bucket old s.by_connection)) s.by_connection,
    find-erase d.player_id p (bucket old s.by_connection),
  )
]

install-Current :
    (s : Index) (connection : ℕ) (d : ClientData)
    → Consistent s
    → Current s
    → Current (install s connection d)
unfolding install
install-Current s connection d h k c p x e = ground (
  arith,
  k c p x,
  find-drop_old_route s d x c p,
  find-drop_old_route s d x connection p,
  k connection p x,
  drop_old_route_lem s d c p h,
  bucket-insert connection c (insert d.player_id d (bucket connection (drop_old_route s d)))
      (drop_old_route s d),
  find-insert d.player_id p d (bucket connection (drop_old_route s d)),
  find-insert d.player_id p d s.latest,
)

bind-Current :
    (s : Index) (connection : ℕ) (d : ClientData)
    → Consistent s
    → Current s
    → Current (bind s connection d).1
unfolding bind rebind
bind-Current s connection d h k c p x e =
    ground (arith, k c p x, install-Current s connection d h k c p x)

unbind-Current :
    (s : Index) (connection : ℕ) (d : ClientData) → Current s → Current (unbind s connection d).1
unfolding unbind
unbind-Current s connection d k c p x e = ground (
  arith,
  k c p x,
  k connection p x,
  bucket-insert connection c (erase d.player_id (bucket connection s.by_connection))
      s.by_connection,
  find-erase d.player_id p (bucket connection s.by_connection),
)

close-Current : (s : Index) (connection : ℕ) → Current s → Current (close s connection).1
unfolding close
close-Current s connection k c p x e = elim (Option-cases (find connection s.by_connection)) [
  | inl n ↦ rw (n, close) (k c p x (rw (n, close) at e))
  | inr (players, n) ↦
      rw (n, close)
        (ground (arith, rw (n, close) at e, k c p x, bucket-erase connection c s.by_connection))
]

-- What every reachable index keeps.
pub record Inv (s : Index) : Type 0 where
  pub consistent : Consistent s
  pub current : Current s

pub run-Inv : (s : Index) (calls : List Call) → Inv s → Inv (run s calls)
unfolding run step
run-Inv s [] v = v
run-Inv s (binds connection d ∷ calls) v = run-Inv (bind s connection d).1 calls (record {
  consistent = bind-Consistent s connection d v.consistent;
  current = bind-Current s connection d v.consistent v.current;
})
run-Inv s (unbinds connection d ∷ calls) v = run-Inv (unbind s connection d).1 calls (record {
  consistent = unbind-Consistent s connection d v.consistent;
  current = unbind-Current s connection d v.current;
})
run-Inv s (closes connection ∷ calls) v = run-Inv (close s connection).1 calls (record {
  consistent = close-Consistent s connection v.consistent;
  current = close-Current s connection v.current;
})

pub empty_index-Inv : Inv empty_index
unfolding empty_index
empty_index-Inv = record { consistent = λ c p. refl; current = λ c p d e. cc }

install-matches :
    (s : Index) (connection : ℕ) (d : ClientData)
    → matches (install s connection d) connection d ≡ true
unfolding install matches
install-matches s connection d = ground (
  arith,
  same_client_binding_refl d,
  find-insert_self connection (insert d.player_id d (bucket connection (drop_old_route s d)))
      (drop_old_route s d),
  find-insert_self d.player_id d (bucket connection (drop_old_route s d)),
)

same_client_binding-eq : (a b : ClientData) → same_client_binding a b ≡ true → a ≡ b
unfolding same_client_binding
same_client_binding-eq a b e = ground arith

repeat-matches :
    (s : Index) (connection : ℕ) (d old : ClientData)
    → Inv s
    → find d.player_id s.latest ≡ some old
    → same_client_binding old d ≡ true
    → routes_to s connection d.player_id ≡ true
    → matches s connection d ≡ true
unfolding matches
repeat-matches s connection d old v e same r =
    elim (Option-cases (find d.player_id (bucket connection s.by_connection))) [
      | inl n ↦ ground (arith, n, v.consistent connection d.player_id)
      | inr (x, n) ↦ ground (arith, n, v.current connection d.player_id x n, same)
    ]

-- On an index that keeps its invariant, an accepted bind leaves the connection matching exactly
-- this binding.
pub bind-matches :
    (s : Index) (connection : ℕ) (d : ClientData)
    → Inv s
    → (bind s connection d).0 ≡ true
    → matches (bind s connection d).1 connection d ≡ true
unfolding bind rebind
bind-matches s connection d v ok = elim (Option-cases (find d.player_id s.latest)) [
  | inl e ↦ ground (arith, e, install-matches s connection d)
  | inr (old, e) ↦
      ground (arith, e, install-matches s connection d, repeat-matches s connection d old v e)
]
