-- ===== src/Scene/Aoi/ClientView/Success.antt =====
-- A pass succeeds where the network takes every push
-- (sceneServer/src-cpp/service/aoi/aoiClientView.cc).
use mmorpg_game_server.Common.{
  ℕ, ◌≡◌, refl, ap, ◌≢◌, ◌⊎◌, inl, inr, Bool, true, false, some, List, [], ◌∷◌, ◌++◌, arith, ltb,
  ◌==◌, Bool-cases, ==-refl, All,
}
use mmorpg_game_server.Common.Map.{Map, find, insert, has, IsMap}
use mmorpg_game_server.Scene.Aoi.ViewSet.{
  AoiViewSet, ObserverSnapshot, ViewBaseline, SentEntityState, ViewSnapshotToken, ViewSendToken,
  AcceptedPush, max_u64, is_nil, valid_kind, process_all, is_current, commit_accepted,
}
use mmorpg_game_server.Scene.Aoi.ClientView.Messages.{
  AoiEntity, ClientPush, Message, sort_view, to_baseline, to_baseline_from, sent_state,
  accepted_changes, accepted_leaves,
}
use mmorpg_game_server.Scene.Aoi.ClientView.Messages.{
  emplace, insert_entity, entered_of, moved_of, left_of, sort_by_key,
}
use mmorpg_game_server.Scene.Aoi.ClientView.{
  AoiService, process_observer, send_delta, send_snapshot, part_count_of, part_push,
}
use mmorpg_game_server.Scene.Aoi.ClientView.Effect.{IsDistinct}
use mmorpg_game_server.Scene.Aoi.ClientView.Sorted.{sort_view-IsSorted}
use mmorpg_game_server.Scene.Aoi.ClientView.Parts.{part_accepted}
use mmorpg_game_server.Scene.Aoi.ClientView.Accepted.{IsAllowed, delta-accepted}
use mmorpg_game_server.Scene.Aoi.ClientView.Outcome.{send_snapshot-begun}
use mmorpg_game_server.Scene.Aoi.ClientView.Process.{process_observer-found}
use mmorpg_game_server.Scene.Aoi.ViewSet.Snapshot.{refuses_snapshot, all_valid}

-- An entity has a number and a kind.
abbrev pub IsEntity : AoiEntity → Type 0
IsEntity e = (e.entity_id ≢ 0) × (valid_kind e.kind ≡ true)

All-insert_entity :
    (P : AoiEntity → Type 0) (e : AoiEntity) (es : List AoiEntity)
    → P e
    → All P es
    → All P (insert_entity e es)
unfolding insert_entity
All-insert_entity P e [] h a = (h, a)
All-insert_entity P e (x ∷ xs) h (y, a) = elim (Bool-cases (ltb e.entity_id x.entity_id)) [
  | inl l ↦ rw l (h, (y, a))
  | inr l ↦ rw l (y, All-insert_entity P e xs h a)
]

All-sort_view : (P : AoiEntity → Type 0) (es : List AoiEntity) → All P es → All P (sort_view es)
unfolding sort_view
All-sort_view P [] a = tt
All-sort_view P (e ∷ es) (h, a) = All-insert_entity P e (sort_view es) h (All-sort_view P es a)

all_valid-insert :
    (k : ℕ) (state : SentEntityState) (m : ViewBaseline)
    → k ≢ 0
    → valid_kind state.kind ≡ true
    → all_valid m ≡ true
    → all_valid (insert k state m) ≡ true
unfolding all_valid
all_valid-insert k state [] n v h = ground arith
all_valid-insert k state ((j, old) ∷ m) n v h = ground (arith, all_valid-insert k state m)

all_valid-to_baseline_from :
    (m : ViewBaseline) (es : List AoiEntity)
    → all_valid m ≡ true
    → All IsEntity es
    → all_valid (to_baseline_from m es) ≡ true
unfolding to_baseline_from emplace sent_state
all_valid-to_baseline_from m [] h a = h
all_valid-to_baseline_from m (e ∷ es) h ((n, v), a) = elim (Bool-cases (has e.entity_id m)) [
  | inl c ↦ rw (emplace, c) (all_valid-to_baseline_from m es h a)
  | inr c ↦
      rw (emplace, c)
        (all_valid-to_baseline_from (insert e.entity_id (sent_state e) m) es
          (all_valid-insert e.entity_id (sent_state e) m n v h) a)
]

commit_accepted-true :
    (v : AoiViewSet) (o : ℕ) (token : ViewSendToken) (items : List AcceptedPush)
    (s : ObserverSnapshot) (r : ViewBaseline × Map (Unit {0}))
    → find o v.views ≡ some s
    → has o v.snapshot_tasks ≡ false
    → is_current token o s ≡ true
    → s.next_view_seq ≢ max_u64
    → process_all items s.committed_state s.pendings ≡ some r
    → (commit_accepted v o token items).0 ≡ true
unfolding commit_accepted
commit_accepted-true v o token items s r e free current room p =
    let below : (s.next_view_seq == max_u64) ≡ false = ground arith in
    elim (Bool-cases (is_nil items)) [
      | inl n ↦ rw (commit_accepted, free, e, current, n) refl
      | inr n ↦ rw (commit_accepted, free, e, current, n, below, p) refl
    ]

send_delta-true :
    (accepts : ClientPush → Bool) (player : ℕ) (service : AoiService) (o : ℕ)
    (token : ViewSendToken) (es : List AoiEntity) (b : ViewBaseline)
    → ((push : ClientPush) → accepts push ≡ true)
    → has o service.view_set.views ≡ true
    → (commit_accepted service.view_set o token (accepted_changes es b ++ accepted_leaves es b)).0
      ≡ true
    → (send_delta accepts (some player) service o token es b).0 ≡ true
unfolding send_delta
send_delta-true accepts player service o token es b all known c =
    elim (Bool-cases (is_nil (accepted_changes es b ++ accepted_leaves es b))) [
      | inl n ↦ rw (send_delta, n) refl
      | inr n ↦
          rw
            (
              send_delta,
              n,
              known,
              all (record {
                observer_player_id = player;
                client_view_epoch = token.client_view_epoch;
                message =
                    Message.view_delta token.next_view_seq (entered_of es b) (moved_of es b)
                      (left_of es b);
              }),
            )
            c
    ]

part_accepted-true :
    (accepts : ClientPush → Bool) (player : ℕ) (token : ViewSnapshotToken)
    (ordered : Map SentEntityState) (i : ℕ)
    → ((push : ClientPush) → accepts push ≡ true)
    → player ≢ 0
    → part_accepted accepts (some player) token ordered i ≡ true
unfolding part_accepted part_push
part_accepted-true accepts player token ordered i all known =
    let numbered : (player == 0) ≡ false = ground arith in
    rw (part_accepted, numbered, all (part_push (some player) token ordered i)) refl

send_snapshot-true :
    (accepts : ClientPush → Bool) (player : ℕ) (service : AoiService) (o : ℕ)
    (frozen : ViewBaseline) (s : ObserverSnapshot)
    → ((push : ClientPush) → accepts push ≡ true)
    → player ≢ 0
    → find o service.view_set.views ≡ some s
    → s.need_resync ≡ true
    → has o service.view_set.snapshot_tasks ≡ false
    → s.next_view_seq ≢ max_u64
    → service.view_set.next_snapshot_id ≢ max_u64
    → all_valid frozen ≡ true
    → (send_snapshot accepts (some player) service o frozen).0 ≡ true
unfolding refuses_snapshot part_count_of
send_snapshot-true accepts player service o frozen s all known e r free room ids valid =
    elim (send_snapshot-begun accepts (some player) service o frozen s e r (ground arith) valid) [
      | inl q ↦ ap (λ w. w.0) q
      | inr (q, keeps, (i, refused)) ↦
          absurd
            (cc (refused, part_accepted-true accepts player _ (sort_by_key frozen) i all known))
    ]

-- A pass succeeds where the observer is known and has no snapshot in progress, its player is
-- known, the network takes every push, the sequence and snapshot numbers have not reached the
-- largest one, and the entities have numbers and kinds; and either the observer waits for a
-- resynchronisation, or the baseline is well formed and every entity of the view follows what
-- the baseline has of it, in kind, in business number, in generation and in version.
pub process_observer_succeeds :
    (accepts : ClientPush → Bool) (player : ℕ) (view : List AoiEntity) (service : AoiService)
    (o : ℕ) (s : ObserverSnapshot)
    → ((push : ClientPush) → accepts push ≡ true)
    → player ≢ 0
    → IsDistinct view
    → All IsEntity view
    → find o service.view_set.views ≡ some s
    → has o service.view_set.snapshot_tasks ≡ false
    → s.next_view_seq ≢ max_u64
    → service.view_set.next_snapshot_id ≢ max_u64
    → IsMap s.committed_state
    → all_valid s.committed_state ≡ true
    → (s.need_resync ≡ true) ⊎ All (IsAllowed s.committed_state) view
    → (process_observer accepts (some player) view service o).0 ≡ true
unfolding is_current to_baseline all_valid
process_observer_succeeds accepts player view service o s all known d a e free room ids u valid h =
    rw (process_observer-found accepts (some player) view service o s e free)
      (elim (Bool-cases s.need_resync) [
        | inl r ↦ rw r (
            send_snapshot-true accepts player service o (to_baseline (sort_view view)) s all known e
              r free room ids
              (all_valid-to_baseline_from [] (sort_view view) refl (All-sort_view IsEntity view a)))
        | inr r ↦ elim h [
          | inl r' ↦ absurd (cc (r, r'))
          | inr follows ↦
              let out =
                delta-accepted (sort_view view) s.committed_state s.pendings
                  (sort_view-IsSorted view d) u valid
                  (All-sort_view (IsAllowed s.committed_state) view follows) in
              rw r (
                send_delta-true accepts player service o _ (sort_view view) s.committed_state all
                  (rw (has, e) refl)
                  (commit_accepted-true service.view_set o _ _ s out.0 e free
                    (rw (==-refl o, ==-refl s.client_view_epoch, ==-refl s.next_view_seq) refl) room
                    out.1))
        ]
      ])
