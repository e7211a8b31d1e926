-- ===== src/Gateway/ClientSession/Soundness.antt =====
-- What the table of client sessions keeps true, whatever is called.
use mmorpg_game_server.Common.{
  ℕ, ◌+◌, ◌<◌, ◌≡◌, refl, sym, ap, ◌∙◌, ◌≢◌, ◌⊎◌, inl, inr, true, false, Option, none, some, arith,
  ◌==◌, Bool-cases, Option-cases, ==→eq,
}
use mmorpg_game_server.Common.Int.{ℤ}
use mmorpg_game_server.Common.Map.{
  Map, find, insert, erase, find-insert, find-insert_self, find-erase,
}
use mmorpg_game_server.Gateway.ClientSession.{
  ClientSession, Table, create, get, epoch_at, epoch_in, set_epoch, demote, kick, attach, attached,
  rebind, bind, max_epoch,
}

-- What a table keeps true of each session, by its index, its epochs and its counter: the session
-- stands under its own number, which was given out; a session that is bound to a player is the one
-- that the player's index leads to, and has the player's last epoch; an authenticated session is
-- bound.
pub record IsSound (index epochs : Map ℕ) (next session : ℕ) (s : ClientSession) : Type 0 where
  pub id : s.session_id ≡ session
  pub given_out : session < next
  pub indexed : s.player_id ≢ 0 → find s.player_id index ≡ some session
  pub bound : s.authed ≡ true → s.player_id ≢ 0
  pub latest : s.player_id ≢ 0 → s.epoch ≡ epoch_in epochs s.player_id

abbrev pub AllSound : Map ClientSession → Map ℕ → Map ℕ → ℕ → Type 0
AllSound m index epochs next =
    (session : ℕ) (s : ClientSession)
    → find session m ≡ some s
    → IsSound index epochs next session s

abbrev pub Inv : Table → Type 0
Inv t = AllSound t.sessions t.player_index t.player_epoch t.next_session_id

pub insert-AllSound :
    (m : Map ClientSession) (index epochs : Map ℕ) (next session : ℕ) (s : ClientSession)
    → ((y : ℕ) (x : ClientSession)
        → find y m ≡ some x
        → y ≢ session
        → IsSound index epochs next y x)
    → IsSound index epochs next session s
    → AllSound (insert session s m) index epochs next
insert-AllSound m index epochs next session s rest v y x e = elim (Bool-cases (session == y)) [
  | inl n ↦
      let same : s ≡ x = ground (arith, find-insert session y s m) in
      rw (← same, ← ==→eq session y n) v
  | inr n ↦ rest y x (ground (arith, find-insert session y s m)) (ground arith)
]

module _ (m : Map ClientSession) (index epochs : Map ℕ) (next : ℕ)
    (all : AllSound m index epochs next) where
  -- A touched epoch stays what it was.
  pub touch-AllSound :
      (player : ℕ) → AllSound m index (insert player (epoch_in epochs player) epochs) next
  touch-AllSound player y x e =
      let v = all y x e in
      record {
        id = v.id;
        given_out = v.given_out;
        indexed = v.indexed;
        bound = v.bound;
        latest = λ h.
            ground
              (arith, v.latest h, find-insert player x.player_id (epoch_in epochs player) epochs);
      }

pub create-Inv :
    (t : Table) (conn : Option ℕ) (dst : ℕ) (now : ℤ) → Inv t → Inv (create t conn dst now).1
unfolding create
create-Inv t conn dst now v =
    insert-AllSound t.sessions t.player_index t.player_epoch (t.next_session_id + 1)
      t.next_session_id _
      (λ y x e _.
        let w = v y x e in
        record {
          id = w.id;
          given_out = omega (arith, w.given_out);
          indexed = w.indexed;
          bound = w.bound;
          latest = w.latest;
        })
      (record {
        id = refl;
        given_out = omega arith;
        indexed = λ h. absurd (h refl);
        bound = λ h. cc;
        latest = λ h. absurd (h refl);
      })

-- What is sound beside one session and one player.
abbrev Rest : Map ClientSession → Map ℕ → Map ℕ → ℕ → ℕ → ℕ → Type 0
Rest m index epochs next session player =
    (y : ℕ) (x : ClientSession)
    → find y m ≡ some x
    → y ≢ session
    → IsSound index epochs next y x × (x.player_id ≢ player)

attach-Inv :
    (t : Table) (session : ℕ) (s : ClientSession) (player dst : ℕ) (now : ℤ)
    → Rest t.sessions t.player_index t.player_epoch t.next_session_id session player
    → session < t.next_session_id
    → s.session_id ≡ session
    → player ≢ 0
    → Inv (attach t session s player dst now)
unfolding attach attached set_epoch
attach-Inv t session s player dst now rest old id nonzero =
    insert-AllSound t.sessions _ _ t.next_session_id session _ others (record {
      id = ground arith;
      given_out = old;
      indexed = λ h. find-insert_self player session t.player_index;
      bound = λ h. nonzero;
      latest = λ h. ground (arith, find-insert_self player (epoch_at t player + 1) t.player_epoch);
    })
  where
    others :
        (y : ℕ) (x : ClientSession)
        → find y t.sessions ≡ some x
        → y ≢ session
        → IsSound
            (insert player session t.player_index)
            (insert player (epoch_at t player + 1) t.player_epoch)
            t.next_session_id
            y
            x
    others y x e ne =
        let r = rest y x e ne in
        record {
          id = (r.0).id;
          given_out = (r.0).given_out;
          indexed = λ h.
              ground (
                arith,
                (r.0).indexed h,
                r.1,
                find-insert player x.player_id session t.player_index,
              );
          bound = (r.0).bound;
          latest = λ h. ground (
            arith,
            (r.0).latest h,
            r.1,
            find-insert player x.player_id (epoch_at t player + 1) t.player_epoch,
          );
        }

-- Where the index has no entry for the player, or leads to this very session.
unclaimed-Rest :
    (t : Table) (session player : ℕ)
    → Inv t
    → player ≢ 0
    → (find player t.player_index ≡ none) ⊎ (find player t.player_index ≡ some session)
    → Rest t.sessions t.player_index t.player_epoch t.next_session_id session player
unclaimed-Rest t session player v nonzero claim y x e ne =
    (v y x e, λ same. ground (arith, claim, (v y x e).indexed (rw same nonzero), same, ne))

-- Where the session that the index leads to makes way.
module _ (t : Table) (player old : ℕ) (v : Inv t) (nonzero : player ≢ 0)
    (claim : find player t.player_index ≡ some old) where
  untouched :
      (y : ℕ) (x : ClientSession)
      → find y t.sessions ≡ some x
      → y ≢ old
      → IsSound (erase player t.player_index) t.player_epoch t.next_session_id y x
        × (x.player_id ≢ player)
  untouched y x e ne =
      let w = v y x e in
      let other : x.player_id ≢ player =
        λ same. ground (arith, claim, w.indexed (rw same nonzero), same, ne) in
      (
        record {
          id = w.id;
          given_out = w.given_out;
          indexed =
              λ h. ground (arith, w.indexed h, other, find-erase player x.player_id t.player_index);
          bound = w.bound;
          latest = w.latest;
        },
        other,
      )

  demoted :
      (o : ClientSession)
      → get t old ≡ some o
      → IsSound
          (erase player t.player_index)
          t.player_epoch
          t.next_session_id
          old
          (record o { authed = false; player_id = 0 })
  demoted o e = record {
    id = (v old o e).id;
    given_out = (v old o e).given_out;
    indexed = λ h. absurd (h refl);
    bound = λ h. cc;
    latest = λ h. absurd (h refl);
  }

  kick-Rest :
      (session : ℕ)
      → Rest
          (kick t player old).sessions
          (kick t player old).player_index
          t.player_epoch
          t.next_session_id
          session
          player
  unfolding kick demote
  kick-Rest session y x e ne = elim (Option-cases (get t old)) [
    | inl n ↦
        let e' : find y t.sessions ≡ some x = rw (n, demote) at e in
        untouched y x e' (λ same. ground (arith, same, e', n))
    | inr (o, n) ↦
        let e' : find y (insert old (record o { authed = false; player_id = 0 }) t.sessions)
            ≡ some x =
          rw (n, demote) at e in
        elim (Bool-cases (old == y)) [
          | inl same ↦
              let hit : record o { authed = false; player_id = 0 } ≡ x = ground (
                arith,
                e',
                same,
                find-insert old y (record o { authed = false; player_id = 0 }) t.sessions,
              ) in
              (
                rw (← hit, ← ==→eq old y same) (demoted o n),
                rw (← hit) (λ h. absurd (nonzero (sym h))),
              )
          | inr other ↦
              untouched y x
                (ground (
                  arith,
                  e',
                  other,
                  find-insert old y (record o { authed = false; player_id = 0 }) t.sessions,
                ))
                (ground arith)
        ]
  ]

rebind-Inv :
    (t : Table) (session : ℕ) (s : ClientSession) (player dst : ℕ) (now : ℤ)
    → Inv t
    → get t session ≡ some s
    → player ≢ 0
    → Inv (rebind t session s player dst now).2
unfolding rebind
rebind-Inv t session s player dst now v e nonzero =
    let w = v session s e in
    elim (Option-cases (find player t.player_index)) [
      | inl n ↦
          rw (n, rebind)
            (attach-Inv t session s player dst now
              (unclaimed-Rest t session player v nonzero (inl n)) w.given_out w.id nonzero)
      | inr (old, n) ↦ elim (Bool-cases (old == session)) [
        | inl same ↦
            rw (n, rebind, same)
              (attach-Inv t session s player dst now
                (unclaimed-Rest t session player v nonzero
                  (inr (n ∙ ap some (==→eq old session same))))
                w.given_out w.id nonzero)
        | inr other ↦
            rw (n, rebind, other)
              (attach-Inv (kick t player old) session s player dst now
                (unfold kick in kick-Rest t player old v nonzero n session)
                (unfold kick in w.given_out) w.id nonzero)
      ]
    ]

pub bind-Inv :
    (t : Table) (session player dst : ℕ) (now : ℤ) → Inv t → Inv (bind t session player dst now).2
unfolding bind set_epoch
bind-Inv t session player dst now v = elim (Bool-cases (player == 0)) [
  | inl z ↦ rw z v
  | inr z ↦ elim (Option-cases (get t session)) [
    | inl e ↦ rw (z, e, bind) v
    | inr (s, e) ↦
        let touched =
          touch-AllSound t.sessions t.player_index t.player_epoch t.next_session_id v player in
        elim (Bool-cases (epoch_at t player == max_epoch)) [
          | inl m ↦ rw (z, e, bind, m) touched
          | inr m ↦
              rw (z, e, bind, m)
                (rebind-Inv (set_epoch t player (epoch_at t player)) session s player dst now
                  touched e (ground arith))
        ]
  ]
]
