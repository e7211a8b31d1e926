-- ===== src/Gateway/ClientSession/Binding.antt =====
-- What binding a player, assigning a scene and submitting to it do to a session.
use mmorpg_game_server.Common.{
  ℕ, ◌+◌, ◌≡◌, refl, ap, ◌∙◌, ◌≢◌, inl, inr, Bool, true, false, not, some, List, arith, ◌==◌,
  Bool-cases, Option-cases,
}
use mmorpg_game_server.Common.Int.{ℤ}
use mmorpg_game_server.Common.Map.{find, insert, erase, find-insert, find-insert_self, find-erase}
use mmorpg_game_server.Gateway.ClientSession.{
  ClientSession, Table, get, find_by_player, epoch_at, set_epoch, demote, kick, attached, attach,
  rebind, bind, assign_scene, set_scene_binding, submittable, submit_scene, max_epoch,
}

attached_fields :
    (s : ClientSession) (epoch player dst : ℕ) (now : ℤ)
    → ((attached s epoch player dst now).player_id ≡ player)
      × ((attached s epoch player dst now).authed ≡ true)
      × ((attached s epoch player dst now).epoch ≡ epoch)
unfolding attached
attached_fields s epoch player dst now = (refl, refl, refl)

-- What a player's binding to a session looks like from outside.
pub record IsBound (before after : Table) (session player : ℕ) : Type 0 where
  pub found : ClientSession
  pub by_player : find_by_player after player ≡ some found
  pub by_session : get after session ≡ some found
  pub owner : found.player_id ≡ player
  pub authed : found.authed ≡ true
  pub newer : found.epoch ≡ epoch_at before player + 1

attach-IsBound :
    (before t : Table) (session : ℕ) (s : ClientSession) (player dst : ℕ) (now : ℤ)
    → player ≢ 0
    → epoch_at t player ≡ epoch_at before player
    → IsBound before (attach t session s player dst now) session player
unfolding attach set_epoch find_by_player
attach-IsBound before t session s player dst now nonzero same =
    let bound = attached s (epoch_at t player + 1) player dst now in
    let f = attached_fields s (epoch_at t player + 1) player dst now in
    record {
      found = bound;
      by_player = ground (
        arith,
        nonzero,
        find-insert_self player session t.player_index,
        find-insert_self session bound t.sessions,
      );
      by_session = find-insert_self session bound t.sessions;
      owner = f.0;
      authed = f.1;
      newer = f.2 ∙ ap (λ k. k + 1) same;
    }

-- The session that made way for the new one, if there was one.
abbrev pub MadeWay : ℕ → ℕ → Table → Type 0
MadeWay kicked session after =
    (kicked ≢ session)
    × ((x : ClientSession) → get after kicked ≡ some x → (x.authed ≡ false) × (x.player_id ≡ 0))

kick-MadeWay :
    (t : Table) (session : ℕ) (s : ClientSession) (player dst old : ℕ) (now : ℤ)
    → old ≢ session
    → MadeWay old session (attach (kick t player old) session s player dst now)
unfolding attach kick demote set_epoch
kick-MadeWay t session s player dst old now ne = (
  ne,
  λ x e. elim (Option-cases (get t old)) [
    | inl n ↦ ground (
      arith,
      ne,
      n,
      rw (n, demote) at e,
      find-insert session old (attached s (epoch_at t player + 1) player dst now) t.sessions,
    )
    | inr (o, n) ↦
        let gone : ClientSession = record o { authed = false; player_id = 0 } in
        let m = insert old gone t.sessions in
        let hit : some gone ≡ some x = ground (
          arith,
          ne,
          find-insert session old (attached s (epoch_at t player + 1) player dst now) m,
          find-insert_self old gone t.sessions,
          rw (n, demote) at e,
        ) in
        (ground (arith, hit), ground (arith, hit))
  ],
)

rebind_lem :
    (before t : Table) (session : ℕ) (s : ClientSession) (player dst : ℕ) (now : ℤ)
    → player ≢ 0
    → epoch_at t player ≡ epoch_at before player
    → IsBound before (rebind t session s player dst now).2 session player
      × ((rebind t session s player dst now).1 ≢ 0
          → MadeWay
              (rebind t session s player dst now).1
              session
              (rebind t session s player dst now).2)
unfolding rebind
rebind_lem before t session s player dst now nonzero same =
    elim (Option-cases (find player t.player_index)) [
      | inl n ↦
          rw (n, rebind)
            (attach-IsBound before t session s player dst now nonzero same, λ h. absurd (h refl))
      | inr (old, n) ↦ elim (Bool-cases (old == session)) [
        | inl e ↦
            rw (n, rebind, e)
              (attach-IsBound before t session s player dst now nonzero same, λ h. absurd (h refl))
        | inr e ↦
            rw (n, rebind, e)
              (
                attach-IsBound before (kick t player old) session s player dst now nonzero
                    (unfold kick in same),
                λ h. kick-MadeWay t session s player dst old now (ground arith),
              )
      ]
    ]

-- A bind that succeeds makes the session the one that the player is found by, authenticated, with
-- the player's epoch raised by one; if another session is reported as kicked, it is not this one, and
-- where it is still in the table it is unbound and unauthenticated.
pub bind_lem :
    (t : Table) (session player dst : ℕ) (now : ℤ)
    → (bind t session player dst now).0 ≡ true
    → IsBound t (bind t session player dst now).2 session player
      × ((bind t session player dst now).1 ≢ 0
          → MadeWay (bind t session player dst now).1 session (bind t session player dst now).2)
unfolding bind set_epoch
bind_lem t session player dst now ok = elim (Bool-cases (player == 0)) [
  | inl z ↦ cc (rw z at ok)
  | inr z ↦ elim (Option-cases (get t session)) [
    | inl e ↦ cc (rw (z, e, bind) at ok)
    | inr (s, e) ↦ elim (Bool-cases (epoch_at t player == max_epoch)) [
      | inl m ↦ cc (rw (z, e, bind, m) at ok)
      | inr m ↦
          rw (z, e, bind, m)
            (rebind_lem t (set_epoch t player (epoch_at t player)) session s player dst now
              (ground arith)
              (ground (arith, find-insert_self player (epoch_at t player) t.player_epoch)))
    ]
  ]
]

-- A scene binding stays for the life of the session: once a scene is assigned, another call of
-- `SetSceneBinding` changes nothing, and it succeeds at most for the same scene.
pub set_scene_binding_fixed :
    (t : Table) (session scene_id channel_id incarnation : ℕ) (conn_name : List ℕ)
    (s : ClientSession)
    → get t session ≡ some s
    → s.scene_id ≢ 0
    → ((set_scene_binding t session scene_id channel_id incarnation conn_name).1 ≡ t)
      × ((set_scene_binding t session scene_id channel_id incarnation conn_name).0 ≡ true
          → (s.scene_id ≡ scene_id)
            × (s.backend_channel_id ≡ channel_id)
            × (s.scene_incarnation ≡ incarnation))
unfolding set_scene_binding assign_scene
set_scene_binding_fixed t session scene_id channel_id incarnation conn_name s e fixed =
    (ground (arith, e), λ ok. ground (arith, e, ok))

submittable_online :
    (s expected : ClientSession)
    → submittable (record s { scene_online_submitted = true }) expected ≡ submittable s expected
unfolding submittable
submittable_online s expected = refl

-- The player is announced once for a binding: after a submission that succeeds, the next one for the
-- same binding passes `false` to its callback and succeeds exactly when the callback does.
pub submit_scene_once :
    (t : Table) (expected : ClientSession) (first next : Bool → Bool)
    → (submit_scene t expected first).0 ≡ true
    → (submit_scene (submit_scene t expected first).1 expected next).0 ≡ next false
unfolding submit_scene
submit_scene_once t expected first next ok = elim (Option-cases (get t expected.session_id)) [
  | inl e ↦ cc (rw (e, submit_scene) at ok)
  | inr (s, e) ↦ elim (Bool-cases (submittable s expected)) [
    | inr f ↦ cc (rw (e, submit_scene, f) at ok)
    | inl f ↦ elim (Bool-cases (first (not s.scene_online_submitted))) [
      | inr g ↦ cc (rw (e, submit_scene, f, g) at ok)
      | inl g ↦
          rw
            (
              e,
              submit_scene,
              f,
              g,
              find-insert_self expected.session_id (record s { scene_online_submitted = true })
                  t.sessions,
              submit_scene,
              submittable_online s expected,
              f,
            )
            (ground arith)
    ]
  ]
]

-- Binding touches the index at the bound player only.
bind_index :
    (t : Table) (session player other dst : ℕ) (now : ℤ)
    → other ≢ player
    → find player (bind t session other dst now).2.player_index ≡ find player t.player_index
unfolding bind rebind attach kick set_epoch
bind_index t session player other dst now ne = ground (
  arith,
  find-insert other player session t.player_index,
  find-insert other player session (erase other t.player_index),
  find-erase other player t.player_index,
)

-- Where a player other than 0 is found at a session, and that session is bound with success to
-- another player, the first player's index entry stays: that player is then found at a session of
-- the other player.
pub bind_stale :
    (t : Table) (session player other dst : ℕ) (now : ℤ)
    → find player t.player_index ≡ some session
    → player ≢ 0
    → other ≢ player
    → (bind t session other dst now).0 ≡ true
    → (s : ClientSession) × (find_by_player (bind t session other dst now).2 player ≡ some s)
      × (s.player_id ≡ other)
unfolding find_by_player
bind_stale t session player other dst now e nonzero ne ok =
    let b = (bind_lem t session other dst now ok).0 in
    (
      b.found,
      ground (arith, nonzero, bind_index t session player other dst now ne, e, b.by_session),
      b.owner,
    )
