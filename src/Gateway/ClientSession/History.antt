-- ===== src/Gateway/ClientSession/History.antt =====
-- Histories of calls on the table of client sessions.
use mmorpg_game_server.Common.{
  ℕ, ◌+◌, ◌≡◌, refl, sym, ◌∙◌, ◌≢◌, inl, inr, Bool, true, ◌||◌, not, Option, some, List, [], ◌∷◌,
  arith, ◌==◌, Bool-cases, Option-cases,
}
use mmorpg_game_server.Common.Int.{ℤ}
use mmorpg_game_server.Common.Map.{Map, find, insert, find-insert, find-insert_self, find-erase}
use mmorpg_game_server.Gateway.ClientSession.Soundness.{
  IsSound, AllSound, Inv, insert-AllSound, touch-AllSound, create-Inv, bind-Inv,
}
use mmorpg_game_server.Gateway.ClientSession.{
  ClientSession, Table, empty_table, create, get, epoch_at, set_epoch, bind, redirect,
  set_dst_service, assign_scene, set_scene_binding, submittable, submit_scene, release_index,
  erase_session, max_epoch, scene_service, is_empty,
}

-- A session whose number, player, authentication and epoch are kept stays sound.
keeps :
    (t : Table) (session : ℕ) (s s' : ClientSession)
    → Inv t
    → get t session ≡ some s
    → s'.session_id ≡ s.session_id
    → s'.player_id ≡ s.player_id
    → s'.authed ≡ s.authed
    → s'.epoch ≡ s.epoch
    → AllSound (insert session s' t.sessions) t.player_index t.player_epoch t.next_session_id
keeps t session s s' v e id player authed epoch =
    let w = v session s e in
    insert-AllSound t.sessions t.player_index t.player_epoch t.next_session_id session s'
      (λ y x h _. v y x h)
      (record {
        id = id ∙ w.id;
        given_out = w.given_out;
        indexed = rw player w.indexed;
        bound = rw (player, authed) w.bound;
        latest = rw (player, epoch) w.latest;
      })

-- Raising the epoch of the one session that is bound to a player.
bumped :
    (t : Table) (session : ℕ) (s s' : ClientSession)
    → Inv t
    → get t session ≡ some s
    → s.authed ≡ true
    → s'.session_id ≡ s.session_id
    → s'.player_id ≡ s.player_id
    → s'.epoch ≡ epoch_at t s.player_id + 1
    → AllSound
        (insert session s' t.sessions)
        t.player_index
        (insert s.player_id (epoch_at t s.player_id + 1) t.player_epoch)
        t.next_session_id
bumped t session s s' v e authed id player epoch =
    insert-AllSound t.sessions t.player_index epochs t.next_session_id session s' others (record {
      id = id ∙ w.id;
      given_out = w.given_out;
      indexed = rw player w.indexed;
      bound = λ h. rw player (w.bound authed);
      latest = λ h. rw player (
          epoch
          ∙ ground
              (arith, find-insert_self s.player_id (epoch_at t s.player_id + 1) t.player_epoch));
    })
  where
    epochs : Map ℕ
    epochs = insert s.player_id (epoch_at t s.player_id + 1) t.player_epoch

    w : IsSound t.player_index t.player_epoch t.next_session_id session s
    w = v session s e

    others :
        (y : ℕ) (x : ClientSession)
        → find y t.sessions ≡ some x
        → y ≢ session
        → IsSound t.player_index epochs t.next_session_id y x
    others y x h ne =
        let u = v y x h in
        record {
          id = u.id;
          given_out = u.given_out;
          indexed = u.indexed;
          bound = u.bound;
          latest = λ k. ground (
            arith,
            u.latest k,
            u.indexed k,
            w.indexed (w.bound authed),
            ne,
            find-insert s.player_id x.player_id (epoch_at t s.player_id + 1) t.player_epoch,
          );
        }

set_dst_service-Inv : (t : Table) (session dst : ℕ) → Inv t → Inv (set_dst_service t session dst).1
unfolding set_dst_service redirect set_epoch
set_dst_service-Inv t session dst v = elim (Option-cases (get t session)) [
  | inl e ↦ rw (e, set_dst_service) v
  | inr (s, e) ↦ elim (Bool-cases (s.dst_service == dst)) [
    | inl same ↦ rw (e, set_dst_service, same) v
    | inr moved ↦ elim (Bool-cases (s.authed)) [
      | inr a ↦ rw (e, set_dst_service, moved, a) (keeps t session s _ v e refl refl (sym a) refl)
      | inl a ↦ elim (Bool-cases (epoch_at t s.player_id == max_epoch)) [
        | inl m ↦
            rw (e, set_dst_service, moved, a, m)
              (touch-AllSound t.sessions t.player_index t.player_epoch t.next_session_id v
                s.player_id)
        | inr m ↦ rw (e, set_dst_service, moved, a, m) (bumped t session s _ v e a refl refl refl)
      ]
    ]
  ]
]

set_scene_binding-Inv :
    (t : Table) (session scene_id channel_id incarnation : ℕ) (conn_name : List ℕ)
    → Inv t
    → Inv (set_scene_binding t session scene_id channel_id incarnation conn_name).1
unfolding set_scene_binding assign_scene
set_scene_binding-Inv t session scene_id channel_id incarnation conn_name v =
    elim (Bool-cases (scene_id == 0 || incarnation == 0 || is_empty conn_name)) [
      | inl r ↦ rw r v
      | inr r ↦ elim (Option-cases (get t session)) [
        | inl e ↦ rw (r, e, set_scene_binding) v
        | inr (s, e) ↦ elim (Bool-cases (not s.authed || not (s.dst_service == scene_service))) [
          | inl f ↦ rw (r, e, set_scene_binding, f) v
          | inr f ↦ elim (Bool-cases (not (s.scene_id == 0))) [
            | inl g ↦ rw (r, e, set_scene_binding, f, g) v
            | inr g ↦
                rw (r, e, set_scene_binding, f, g) (keeps t session s _ v e refl refl refl refl)
          ]
        ]
      ]
    ]

submit_scene-Inv :
    (t : Table) (expected : ClientSession) (submit : Bool → Bool)
    → Inv t
    → Inv (submit_scene t expected submit).1
unfolding submit_scene
submit_scene-Inv t expected submit v = elim (Option-cases (get t expected.session_id)) [
  | inl e ↦ rw (e, submit_scene) v
  | inr (s, e) ↦ elim (Bool-cases (submittable s expected)) [
    | inr f ↦ rw (e, submit_scene, f) v
    | inl f ↦ elim (Bool-cases (submit (not s.scene_online_submitted))) [
      | inr g ↦ rw (e, submit_scene, f, g) v
      | inl g ↦ rw (e, submit_scene, f, g) (keeps t expected.session_id s _ v e refl refl refl refl)
    ]
  ]
]

release_index_lem :
    (t : Table) (session : ℕ) (s : ClientSession) (player owner : ℕ)
    → find player t.player_index ≡ some owner
    → owner ≢ session
    → find player (release_index t session s) ≡ some owner
unfolding release_index
release_index_lem t session s player owner e ne =
    elim (Option-cases (find s.player_id t.player_index)) [
      | inl n ↦ ground (arith, n, e)
      | inr (o, n) ↦ ground (arith, n, e, ne, find-erase s.player_id player t.player_index)
    ]

erase_session-Inv : (t : Table) (session : ℕ) → Inv t → Inv (erase_session t session).1
unfolding erase_session
erase_session-Inv t session v = elim (Option-cases (get t session)) [
  | inl e ↦ rw (e, erase_session) v
  | inr (s, e) ↦
      rw (e, erase_session)
        λ y x h.
          let ne : y ≢ session = ground (arith, h, find-erase session y t.sessions) in
          let w = v y x (ground (arith, h, find-erase session y t.sessions)) in
          record {
            id = w.id;
            given_out = w.given_out;
            indexed = λ k. release_index_lem t session s x.player_id y (w.indexed k) ne;
            bound = w.bound;
            latest = w.latest;
          }
]

-- The calls that change the table.
pub data Call : Type 0 where
  creates : Option ℕ → ℕ → ℤ → Call
  binds : ℕ → ℕ → ℕ → ℤ → Call
  redirects : ℕ → ℕ → Call
  assigns : ℕ → ℕ → ℕ → ℕ → List ℕ → Call
  submits : ClientSession → (Bool → Bool) → Call
  erases : ℕ → Call

unfoldable pub step : Table → Call → Table
step t (creates conn dst now) = (create t conn dst now).1
step t (binds session player dst now) = (bind t session player dst now).2
step t (redirects session dst) = (set_dst_service t session dst).1
step t (assigns session scene channel incarnation name) =
    (set_scene_binding t session scene channel incarnation name).1
step t (submits expected submit) = (submit_scene t expected submit).1
step t (erases session) = (erase_session t session).1

unfoldable pub run : Table → List Call → Table
run t [] = t
run t (call ∷ calls) = run (step t call) calls

step-Inv : (t : Table) (call : Call) → Inv t → Inv (step t call)
unfolding step
step-Inv t (creates conn dst now) v = create-Inv t conn dst now v
step-Inv t (binds session player dst now) v = bind-Inv t session player dst now v
step-Inv t (redirects session dst) v = set_dst_service-Inv t session dst v
step-Inv t (assigns session scene channel incarnation name) v =
    set_scene_binding-Inv t session scene channel incarnation name v
step-Inv t (submits expected submit) v = submit_scene-Inv t expected submit v
step-Inv t (erases session) v = erase_session-Inv t session v

pub run-Inv : (t : Table) (calls : List Call) → Inv t → Inv (run t calls)
unfolding run
run-Inv t [] v = v
run-Inv t (call ∷ calls) v = run-Inv (step t call) calls (step-Inv t call v)

pub empty_table-Inv : Inv empty_table
unfolding empty_table
empty_table-Inv session s e = cc

-- After any history of calls, two sessions of the table are never bound to the same player, and a
-- session that is bound to a player has the last epoch that was given out for that player.
pub run_one_session :
    (calls : List Call) (a b : ℕ) (x y : ClientSession)
    → get (run empty_table calls) a ≡ some x
    → get (run empty_table calls) b ≡ some y
    → x.player_id ≢ 0
    → x.player_id ≡ y.player_id
    → (a ≡ b) × (x.epoch ≡ epoch_at (run empty_table calls) x.player_id)
run_one_session calls a b x y ea eb bound same =
    let v = run-Inv empty_table calls empty_table-Inv in
    let u = (v a x ea).indexed bound in
    let w = (v b y eb).indexed (rw (← same) bound) in
    (ground (arith, u, w, same), (v a x ea).latest bound)
