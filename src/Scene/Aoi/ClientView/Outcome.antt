-- ===== src/Scene/Aoi/ClientView/Outcome.antt =====
-- How a commit, a delta and a snapshot can end
-- (sceneServer/src-cpp/service/aoi/aoiClientView.cc and aoiViewSet.cc).
use mmorpg_game_server.Common.{
  ℕ, ◌^◌, ◌<◌, ◌≡◌, refl, ◌⊎◌, inl, inr, Bool, true, false, not, Option, none, some, List, [], ◌∷◌,
  ◌++◌, arith, ◌==◌, if◌then◌else◌, Bool-cases, Option-cases,
}
use mmorpg_game_server.Common.Map.{Map, find, has, find-insert_self}
use mmorpg_game_server.Scene.Aoi.ViewSet.{
  AoiViewSet, ObserverSnapshot, ViewBaseline, ViewSendToken, AcceptedPush, max_u64, inc64, is_nil,
  with_observer, process_all, is_current, commit_accepted, need_resync, committed_baseline,
}
use mmorpg_game_server.Scene.Aoi.ClientView.Messages.{
  AoiEntity, ClientPush, Message, accepted_changes, accepted_leaves,
}
use mmorpg_game_server.Scene.Aoi.ClientView.Messages.{entered_of, moved_of, left_of, sort_by_key}
use mmorpg_game_server.Scene.Aoi.ClientView.{AoiService, send_delta, send_snapshot, part_count_of}
use mmorpg_game_server.Scene.Aoi.ClientView.Parts.{part_accepted, send_parts-progress}
use mmorpg_game_server.Scene.Aoi.ViewSet.Snapshot.{
  token_of, refuses_snapshot, all_valid, begin_snapshot,
}
use mmorpg_game_server.Scene.Aoi.ViewSet.Progress.{
  completed, begin_snapshot-progress, commit_snapshot-progress,
}

-- The observer has the baseline, and waits for a resynchronisation or not.
pub record Has (v : AoiViewSet) (o : ℕ) (m : ViewBaseline) (resync : Bool) : Type 0 where
  pub baseline_eq : committed_baseline v o ≡ some m
  pub resync_eq : need_resync v o ≡ resync

pub find-Has :
    (v : AoiViewSet) (o : ℕ) (s : ObserverSnapshot)
    → find o v.views ≡ some s
    → Has v o s.committed_state s.need_resync
unfolding committed_baseline need_resync
find-Has v o s e = record {
  baseline_eq = rw (committed_baseline, e) refl;
  resync_eq = rw (need_resync, e) refl;
}

-- Nothing is changed, or the pushes are accepted and the baseline is what they make of it.
abbrev Committed :
    AoiViewSet → ObserverSnapshot → ℕ → List AcceptedPush → Bool × AoiViewSet → Type 0
Committed v s o items w =
    (w ≡ (false, v))
    ⊎ ((w.0 ≡ true)
        × ((r : ViewBaseline × Map (Unit {0})) × (process_all items s.committed_state s.pendings
              ≡ some r)
            × Has w.1 o r.0 s.need_resync))

if-Committed :
    (b : Bool) (v : AoiViewSet) (s : ObserverSnapshot) (o : ℕ) (items : List AcceptedPush)
    (w : Bool × AoiViewSet)
    → (b ≡ false → Committed v s o items w)
    → Committed v s o items (if b then (false, v) else w)
if-Committed true v s o items w f = inl refl
if-Committed false v s o items w f = f refl

commit_items-Committed :
    (v : AoiViewSet) (s : ObserverSnapshot) (o : ℕ) (items : List AcceptedPush)
    (r : Option (ViewBaseline × Map (Unit {0})))
    → process_all items s.committed_state s.pendings ≡ r
    → Committed v s o items (elim r [
      | none ↦ (false, v)
      | some (m, pendings) ↦ (
        true,
        with_observer v o (record s {
          committed_state = m;
          pendings = pendings;
          next_view_seq = inc64 s.next_view_seq;
        }),
      )
    ])
commit_items-Committed v s o items none p = inl refl
commit_items-Committed v s o items (some (m, pendings)) p =
    let s' : ObserverSnapshot = record s {
      committed_state = m;
      pendings = pendings;
      next_view_seq = inc64 s.next_view_seq;
    } in
    inr (
      refl,
      ((m, pendings), p, find-Has (with_observer v o s') o s' (find-insert_self o s' v.views)),
    )

pub process_all-nil :
    (items : List AcceptedPush) (m : ViewBaseline) (p : Map (Unit {0}))
    → is_nil items ≡ true
    → process_all items m p ≡ some (m, p)
unfolding process_all
process_all-nil [] m p h = refl
process_all-nil (x ∷ xs) m p h = absurd (cc (h))

pub commit_accepted-Committed :
    (v : AoiViewSet) (o : ℕ) (token : ViewSendToken) (items : List AcceptedPush)
    (s : ObserverSnapshot)
    → find o v.views ≡ some s
    → Committed v s o items (commit_accepted v o token items)
unfolding commit_accepted
commit_accepted-Committed v o token items s e =
    rw (commit_accepted, e)
      (if-Committed (has o v.snapshot_tasks) v s o items _ (λ absent.
        if-Committed (not (is_current token o s)) v s o items _ (λ current.
          elim (Bool-cases (is_nil items)) [
            | inl n ↦ rw n (
                inr (
                  refl,
                  (
                    (s.committed_state, s.pendings),
                    process_all-nil items s.committed_state s.pendings n,
                    find-Has v o s e,
                  ),
                ))
            | inr n ↦ rw n (
                if-Committed (s.next_view_seq == max_u64) v s o items _ (λ room.
                  commit_items-Committed v s o items
                    (process_all items s.committed_state s.pendings) refl))
          ])))

-- The same for a delta.
abbrev pub Sent : AoiService → ObserverSnapshot → ℕ → List AcceptedPush → Bool × AoiService → Type 0
Sent service s o items w =
    (w ≡ (false, service))
    ⊎ ((w.0 ≡ true)
        × ((r : ViewBaseline × Map (Unit {0})) × (process_all items s.committed_state s.pendings
              ≡ some r)
            × Has w.1.view_set o r.0 s.need_resync))

if-Sent :
    (b : Bool) (service : AoiService) (s : ObserverSnapshot) (o : ℕ) (items : List AcceptedPush)
    (w : Bool × AoiService)
    → (b ≡ false → Sent service s o items w)
    → Sent service s o items (if b then (false, service) else w)
if-Sent true service s o items w f = inl refl
if-Sent false service s o items w f = f refl

Committed-Sent :
    (service : AoiService) (s : ObserverSnapshot) (o : ℕ) (items : List AcceptedPush)
    (w : Bool × AoiViewSet)
    → Committed service.view_set s o items w
    → Sent service s o items (w.0, record service { view_set = w.1 })
Committed-Sent service s o items w (inl e) =
    inl (λ i. ((e i).0, record service { view_set = (e i).1 }))
Committed-Sent service s o items w (inr h) = inr h

pub send_delta-Sent :
    (accepts : ClientPush → Bool) (business_id : Option ℕ) (service : AoiService) (o : ℕ)
    (token : ViewSendToken) (es : List AoiEntity) (s : ObserverSnapshot)
    → find o service.view_set.views ≡ some s
    → Sent service s o
        (accepted_changes es s.committed_state ++ accepted_leaves es s.committed_state)
        (send_delta accepts business_id service o token es s.committed_state)
unfolding send_delta
send_delta-Sent accepts bid service o token es s e =
    let items = accepted_changes es s.committed_state ++ accepted_leaves es s.committed_state in
    elim (Bool-cases (is_nil items)) [
      | inl n ↦
          rw (send_delta, n)
            (inr (
              refl,
              (
                (s.committed_state, s.pendings),
                process_all-nil items s.committed_state s.pendings n,
                find-Has service.view_set o s e,
              ),
            ))
      | inr n ↦ elim (Option-cases bid) [
        | inl b ↦ rw (send_delta, n, b) (inl refl)
        | inr (player, b) ↦
            rw (send_delta, n, b)
              (if-Sent (not (has o service.view_set.views)) service s o items _ (λ known.
                if-Sent
                  (not (
                    accepts (record {
                      observer_player_id = player;
                      client_view_epoch = token.client_view_epoch;
                      message =
                          Message.view_delta token.next_view_seq (entered_of es s.committed_state)
                            (moved_of es s.committed_state) (left_of es s.committed_state);
                    })))
                  service s o items _
                  (λ accepted.
                    Committed-Sent service s o items
                      (commit_accepted service.view_set o token items)
                      (commit_accepted-Committed service.view_set o token items s e))))
      ]
    ]

part_count_of-lt : (frozen : ViewBaseline) → part_count_of frozen < 2 ^ 32
unfolding part_count_of
part_count_of-lt frozen = omega arith

-- A snapshot that is begun is completed, or one of its parts is refused and the baseline is what
-- it was.
pub send_snapshot-begun :
    (accepts : ClientPush → Bool) (business_id : Option ℕ) (service : AoiService) (o : ℕ)
    (frozen : ViewBaseline) (s : ObserverSnapshot)
    → find o service.view_set.views ≡ some s
    → s.need_resync ≡ true
    → refuses_snapshot service.view_set o s (part_count_of frozen) ≡ false
    → all_valid frozen ≡ true
    → (send_snapshot accepts business_id service o frozen
        ≡ (true, record service { view_set = completed service.view_set o s frozen }))
      ⊎ ((send_snapshot accepts business_id service o frozen).0 ≡ false)
        × (committed_baseline (send_snapshot accepts business_id service o frozen).1.view_set o
            ≡ some s.committed_state)
        × ((i : ℕ) × (part_accepted accepts business_id
                (token_of service.view_set o s (part_count_of frozen))
                (sort_by_key frozen)
                i
              ≡ false))
unfolding send_snapshot
send_snapshot-begun accepts bid service o frozen s e r ok valid =
    let n = part_count_of frozen in
    elim (send_parts-progress accepts bid (sort_by_key frozen) service.view_set o s frozen n 0 n
      service.dirty_observers e r (omega arith) (part_count_of-lt frozen)) [
        | inl sent ↦ inl (
            rw
              (
                send_snapshot,
                begin_snapshot-progress service.view_set o s frozen n e ok valid,
                begin_snapshot-progress service.view_set o s frozen n e ok valid,
                sent,
                commit_snapshot-progress service.view_set o s frozen n e r,
              )
              refl)
        | inr (failed, keeps, refused) ↦ inr (
          rw
              (
                send_snapshot,
                begin_snapshot-progress service.view_set o s frozen n e ok valid,
                begin_snapshot-progress service.view_set o s frozen n e ok valid,
                failed,
              )
              refl,
          rw
              (
                send_snapshot,
                begin_snapshot-progress service.view_set o s frozen n e ok valid,
                begin_snapshot-progress service.view_set o s frozen n e ok valid,
                failed,
              )
              keeps,
          refused,
        )
      ]

-- A snapshot that is not begun changes nothing.
pub send_snapshot-refused :
    (accepts : ClientPush → Bool) (business_id : Option ℕ) (service : AoiService) (o : ℕ)
    (frozen : ViewBaseline) (s : ObserverSnapshot)
    → find o service.view_set.views ≡ some s
    → (refuses_snapshot service.view_set o s (part_count_of frozen) ≡ true)
      ⊎ (all_valid frozen ≡ false)
    → send_snapshot accepts business_id service o frozen ≡ (false, service)
unfolding send_snapshot begin_snapshot
send_snapshot-refused accepts bid service o frozen s e (inl r) =
    rw (send_snapshot, begin_snapshot, e, r) refl
send_snapshot-refused accepts bid service o frozen s e (inr a) =
    elim (Bool-cases (refuses_snapshot service.view_set o s (part_count_of frozen))) [
      | inl r ↦ rw (send_snapshot, begin_snapshot, e, r) refl
      | inr r ↦ rw (send_snapshot, begin_snapshot, e, r, a) refl
    ]
