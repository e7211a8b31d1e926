-- ===== src/Scene/Aoi/ClientView/Accepted.antt =====
-- The pushes of a delta are accepted where no entity goes back to an earlier state
-- (sceneServer/src-cpp/service/aoi/aoiClientView.cc and aoiViewSet.cc).
use mmorpg_game_server.Common.{
  ℕ, ◌≤◌, ◌<◌, ◌≡◌, refl, sym, ◌∙◌, ◌≢◌, ◌⊎◌, inl, inr, true, false, ◌||◌, not, Option, none, some,
  List, [], ◌∷◌, ◌++◌, arith, ◌==◌, Bool-cases, Option-cases, ==-refl, ==→eq, All,
}
use mmorpg_game_server.Common.Map.{Map, find, insert, erase, find-insert, find-erase, IsMap}
use mmorpg_game_server.Scene.Aoi.ViewSet.{
  ViewBaseline, SentEntityState, AcceptedPush, AoiMsgKind, valid_kind, process, process_all,
  refuses_entry, refuses_move,
}
use mmorpg_game_server.Scene.Aoi.ClientView.Messages.{
  AoiEntity, pushed_state, change_push, is_entered, is_moved, in_view, accepted_changes,
  accepted_leaves,
}
use mmorpg_game_server.Scene.Aoi.ViewSet.Snapshot.{all_valid}
use mmorpg_game_server.Scene.Aoi.ClientView.Effect.{
  view_find, IsDistinct, next_state, process_all-append, changes-effect, Agrees, Agrees-first,
  process_own_leave,
}
use mmorpg_game_server.Scene.Aoi.ClientView.Sorted.{IsSorted, IsSorted-IsDistinct}
use mmorpg_game_server.Scene.Aoi.ClientView.Shows.{not_in_view}

-- An entity of the view follows what the baseline has of it.
abbrev pub Follows : AoiEntity → Option SentEntityState → Type 0
Follows e none = Unit
Follows e (some old) =
    (e.kind ≡ old.kind)
    × (e.business_id ≡ old.business_id)
    × ((old.entity_generation < e.entity_generation)
        ⊎ ((old.entity_generation ≡ e.entity_generation)
            × (old.spatial_version ≤ e.spatial_version)))

abbrev pub IsAllowed : ViewBaseline → AoiEntity → Type 0
IsAllowed b e = (e.entity_id ≢ 0) × (valid_kind e.kind ≡ true) × Follows e (find e.entity_id b)

refuses_entry-Follows :
    (e : AoiEntity) (old : SentEntityState)
    → Follows e (some old)
    → refuses_entry (pushed_state e) old ≡ false
unfolding refuses_entry pushed_state
refuses_entry-Follows e old (k, bi, inl l) = ground arith
refuses_entry-Follows e old (k, bi, inr (g, w)) = ground arith

refuses_move-Follows :
    (e : AoiEntity) (old : SentEntityState)
    → Follows e (some old)
    → (old.entity_generation == e.entity_generation) ≡ true
    → refuses_move (pushed_state e) old ≡ false
unfolding refuses_move pushed_state
refuses_move-Follows e old (k, bi, inl l) same = ground arith
refuses_move-Follows e old (k, bi, inr (g, w)) same = ground arith

process-entry :
    (e : AoiEntity) (m : ViewBaseline)
    → Follows e (find e.entity_id m)
    → process (change_push AoiMsgKind.entry e) m ≡ some (insert e.entity_id (pushed_state e) m)
unfolding process change_push
process-entry e m f = elim (Option-cases (find e.entity_id m)) [
  | inl q ↦ rw (process, q) refl
  | inr (old, q) ↦ rw (process, q, refuses_entry-Follows e old (rw q at f)) refl
]

process-move :
    (e : AoiEntity) (b m : ViewBaseline)
    → find e.entity_id m ≡ find e.entity_id b
    → Follows e (find e.entity_id m)
    → is_moved b e ≡ true
    → process (change_push AoiMsgKind.move e) m ≡ some (insert e.entity_id (pushed_state e) m)
unfolding process change_push is_moved
process-move e b m same f moved = elim (Option-cases (find e.entity_id m)) [
  | inl q ↦ absurd (cc (rw (is_moved, sym same, q) at moved))
  | inr (old, q) ↦ elim (Bool-cases (old.entity_generation == e.entity_generation)) [
    | inl g ↦ rw (process, q, refuses_move-Follows e old (rw q at f) g) refl
    | inr g ↦ absurd (cc (rw (is_moved, sym same, q, g) at moved))
  ]
]

process_all-cons :
    (x : AcceptedPush) (xs : List AcceptedPush) (m m' : ViewBaseline) (p : Map (Unit {0}))
    → x.target_id ≢ 0
    → valid_kind x.state.kind ≡ true
    → process x m ≡ some m'
    → process_all (x ∷ xs) m p ≡ process_all xs m' (erase x.target_id p)
unfolding process_all
process_all-cons x xs m m' p n k q =
    let good : (x.target_id == 0 || not (valid_kind x.state.kind)) ≡ false = ground arith in
    rw (process_all, good, q) refl

pub changes-accepted :
    (es : List AoiEntity) (b m : ViewBaseline) (p : Map (Unit {0}))
    → IsDistinct es
    → Agrees es b m
    → All (IsAllowed b) es
    → (r : ViewBaseline × Map (Unit {0})) × (process_all (accepted_changes es b) m p ≡ some r)
unfolding process_all accepted_changes change_push pushed_state
changes-accepted [] b m p d keep a = ((m, p), refl)
changes-accepted (e ∷ es) b m p (new, d) keep ((n, k, f), a) =
    let own : find e.entity_id m ≡ find e.entity_id b =
      keep e.entity_id e (rw (==-refl e.entity_id) refl) in
    let put =
      changes-accepted es b (insert e.entity_id (pushed_state e) m) (erase e.entity_id p) d
        (Agrees-first e es b m (insert e.entity_id (pushed_state e) m) new
          (λ j o. find-insert e.entity_id j (pushed_state e) m ∙ rw o refl) keep)
        a in
    elim (Bool-cases (is_entered b e)) [
      | inl t ↦ (
        put.0,
        rw
            (
              accepted_changes,
              t,
              process_all-cons (change_push AoiMsgKind.entry e) (accepted_changes es b) m _ p n k
                  (process-entry e m (rw (sym own) at f)),
            )
            put.1,
      )
      | inr t ↦ elim (Bool-cases (is_moved b e)) [
        | inl t' ↦ (
          put.0,
          rw
              (
                accepted_changes,
                t,
                t',
                process_all-cons (change_push AoiMsgKind.move e) (accepted_changes es b) m _ p n k
                    (process-move e b m own (rw (sym own) at f) t'),
              )
              put.1,
        )
        | inr t' ↦
            let rest =
              changes-accepted es b m p d (Agrees-first e es b m m new (λ j o. refl) keep) a in
            (rest.0, rw (accepted_changes, t, t') rest.1)
      ]
    ]

pub leaves-accepted :
    (es : List AoiEntity) (b m : ViewBaseline) (p : Map (Unit {0}))
    → IsMap b
    → all_valid b ≡ true
    → ((j : ℕ) (old : SentEntityState)
        → in_view j es ≡ false
        → find j b ≡ some old
        → find j m ≡ some old)
    → (r : ViewBaseline × Map (Unit {0})) × (process_all (accepted_leaves es b) m p ≡ some r)
unfolding process_all accepted_leaves all_valid
leaves-accepted es [] m p u v keep = ((m, p), refl)
leaves-accepted es ((i, old) ∷ b) m p (new, u) v keep =
    elim (Bool-cases (i == 0 || not (valid_kind old.kind))) [
      | inl bad ↦ absurd (cc (rw bad at v))
      | inr good ↦ elim (Bool-cases (in_view i es)) [
        | inl t ↦
            let rest = leaves-accepted es b m p u (rw good at v) (λ j o w f.
              keep j o w (elim (Bool-cases (i == j)) [
                | inl q ↦ absurd (cc (rw (==→eq i j q) at t, w))
                | inr q ↦ rw q f
              ])) in
            (rest.0, rw (accepted_leaves, t) rest.1)
        | inr t ↦
            let push : AcceptedPush = record {
              kind = AoiMsgKind.leave;
              target_id = i;
              state = old;
            } in
            let rest = leaves-accepted es b (erase i m) (erase i p) u (rw good at v) (λ j o w f.
              elim (Bool-cases (i == j)) [
                | inl q ↦ absurd (cc (new, ==→eq i j q, f))
                | inr q ↦ find-erase i j m ∙ rw q (keep j o w (rw q f))
              ]) in
            (
              rest.0,
              rw
                  (
                    accepted_leaves,
                    t,
                    process_all-cons push (accepted_leaves es b) m (erase i m) p
                        (ground (arith, good)) (ground (arith, good))
                        (process_own_leave push m refl (keep i old t (rw (==-refl i) refl))),
                  )
                  rest.1,
            )
      ]
    ]

-- Every push of the delta is accepted.
pub delta-accepted :
    (es : List AoiEntity) (b : ViewBaseline) (p : Map (Unit {0}))
    → IsSorted es
    → IsMap b
    → all_valid b ≡ true
    → All (IsAllowed b) es
    → (r : ViewBaseline × Map (Unit {0})) × (process_all
          (accepted_changes es b ++ accepted_leaves es b)
          b
          p
        ≡ some r)
delta-accepted es b p sorted u v a =
    let d = IsSorted-IsDistinct es sorted in
    let first = changes-accepted es b b p d (λ k e f. refl) a in
    let after : (k : ℕ)
        → find k first.0.0 ≡ elim (view_find k es) [ none ↦ find k b | some x ↦ next_state b x ] =
      changes-effect es b b p first.0 d (λ k x f. refl) first.1 in
    let second =
      leaves-accepted es b first.0.0 first.0.1 u v
        (λ k old w f. after k ∙ rw (not_in_view k es sorted w) f) in
    (
      second.0,
      process_all-append (accepted_changes es b) (accepted_leaves es b) b p ∙ rw first.1 second.1,
    )
