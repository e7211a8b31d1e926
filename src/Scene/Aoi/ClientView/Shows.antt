-- ===== src/Scene/Aoi/ClientView/Shows.antt =====
-- The baseline and the view agree after a delta and after a snapshot
-- (sceneServer/src-cpp/service/aoi/aoiClientView.cc).
use mmorpg_game_server.Common.{
  ℕ, ◌≡◌, refl, ◌∙◌, ◌⊎◌, inl, inr, false, ◌||◌, not, Option, none, some, List, [], ◌∷◌, ◌++◌,
  arith, ◌==◌, if◌then◌else◌, Bool-cases, Option-cases, ==→eq,
}
use mmorpg_game_server.Common.Map.{Map, find, has, find-insert, has-none, IsMap}
use mmorpg_game_server.Scene.Aoi.ViewSet.{ViewBaseline, SentEntityState, process_all}
use mmorpg_game_server.Scene.Aoi.ClientView.Messages.{
  AoiEntity, sort_view, to_baseline, to_baseline_from, sent_state, pushed_state, is_entered,
  is_moved, in_view, accepted_changes, accepted_leaves,
}
use mmorpg_game_server.Scene.Aoi.ClientView.Messages.{emplace}
use mmorpg_game_server.Scene.Aoi.ClientView.Effect.{
  view_find, IsDistinct, next_state, process_all-append, changes-effect, leaves-effect,
}
use mmorpg_game_server.Scene.Aoi.ClientView.Sorted.{
  IsSorted, IsSorted-IsDistinct, in_view-view_find, view_find-sort_view,
}

-- What the view has for a number against what the baseline has, after a pass that started at the
-- baseline `b`: nothing on both sides, or the same generation and the same version of the place,
-- and also the kind and the business number of the entity, unless `b` had this very state for it.
-- The place itself is not compared.
abbrev pub ShowsAt : ViewBaseline → Option AoiEntity → Option SentEntityState → Type 0
ShowsAt b none none = Unit
ShowsAt b none (some state) = ⊥
ShowsAt b (some e) none = ⊥
ShowsAt b (some e) (some state) =
    (state.entity_generation ≡ e.entity_generation)
    × (state.spatial_version ≡ e.spatial_version)
    × (((state.kind ≡ e.kind) × (state.business_id ≡ e.business_id))
        ⊎ (find e.entity_id b ≡ some state))

-- The baseline shows the view.
pub Shows : ViewBaseline → List AoiEntity → ViewBaseline → Type 0
Shows b view m = (j : ℕ) → ShowsAt b (view_find j view) (find j m)

to_baseline_from-find :
    (j : ℕ) (es : List AoiEntity) (m : ViewBaseline)
    → find j (to_baseline_from m es) ≡ elim (find j m) [
      | some state ↦ some state
      | none ↦ elim (view_find j es) [ none ↦ none | some e ↦ some (sent_state e) ]
    ]
unfolding to_baseline_from emplace
to_baseline_from-find j [] m = ground arith
to_baseline_from-find j (e ∷ es) m = ground (
  arith,
  to_baseline_from-find j es (emplace e.entity_id (sent_state e) m),
  find-insert e.entity_id j (sent_state e) m,
)

pub sort_view-Shows :
    (b : ViewBaseline) (view : List AoiEntity) (m : ViewBaseline)
    → IsDistinct view
    → Shows b (sort_view view) m
    → Shows b view m
unfolding Shows
sort_view-Shows b view m d h j = rw (view_find-sort_view j view d) at (h j)

next_state-ShowsAt : (b : ViewBaseline) (e : AoiEntity) → ShowsAt b (some e) (next_state b e)
unfolding is_entered is_moved pushed_state
next_state-ShowsAt b e = elim (Option-cases (find e.entity_id b)) [
  | inl q ↦ rw (is_entered, q) (refl, refl, inl (refl, refl))
  | inr (old, q) ↦ elim (Bool-cases (old.entity_generation == e.entity_generation)) [
    | inr g ↦ rw (is_entered, q, g) (refl, refl, inl (refl, refl))
    | inl g ↦ elim (Bool-cases (old.spatial_version == e.spatial_version)) [
      | inr w ↦ rw (is_entered, is_moved, q, g, w) (refl, refl, inl (refl, refl))
      | inl w ↦
          rw (is_entered, is_moved, q, g, w)
            (
              ==→eq old.entity_generation e.entity_generation g,
              ==→eq old.spatial_version e.spatial_version w,
              inr q,
            )
    ]
  ]
]

pub not_in_view :
    (j : ℕ) (es : List AoiEntity) → IsSorted es → in_view j es ≡ false → view_find j es ≡ none
not_in_view j es sorted h = elim (Option-cases (view_find j es)) [
  | inl e ↦ e
  | inr (x, e) ↦ absurd (cc (h, rw e at (in_view-view_find j es sorted)))
]

ends-ShowsAt :
    (es : List AoiEntity) (b m m' : ViewBaseline) (j : ℕ)
    → IsSorted es
    → ((k : ℕ) → find k m ≡ elim (view_find k es) [ none ↦ find k b | some x ↦ next_state b x ])
    → find j m' ≡ (if in_view j es || not (has j b) then find j m else none)
    → ShowsAt b (view_find j es) (find j m')
ends-ShowsAt es b m m' j sorted same h = elim (Option-cases (view_find j es)) [
  | inl v ↦ elim (Bool-cases (has j b)) [
    | inl hb ↦ rw (v, rw (rw v at (in_view-view_find j es sorted), hb) at h) tt
    | inr hb ↦
        rw
          (
            v,
            rw (rw v at (in_view-view_find j es sorted), hb) at h,
            rw v at (same j),
            has-none j b hb,
          )
          tt
  ]
  | inr (x, v) ↦
      rw (v, rw (rw v at (in_view-view_find j es sorted)) at h, rw v at (same j))
        (next_state-ShowsAt b x)
]

-- A delta that is committed shows the view.
pub delta-Shows :
    (es : List AoiEntity) (b : ViewBaseline) (p : Map (Unit {0}))
    (r : ViewBaseline × Map (Unit {0}))
    → IsSorted es
    → IsMap b
    → process_all (accepted_changes es b ++ accepted_leaves es b) b p ≡ some r
    → Shows b es r.0
unfolding Shows
delta-Shows es b p r sorted u h j = elim (Option-cases (process_all (accepted_changes es b) b p)) [
  | inl e ↦
      absurd
        (cc (rw (process_all-append (accepted_changes es b) (accepted_leaves es b) b p, e) at h))
  | inr (r1, e) ↦
      let same : (k : ℕ)
          → find k r1.0 ≡ elim (view_find k es) [ none ↦ find k b | some x ↦ next_state b x ] =
        changes-effect es b b p r1 (IsSorted-IsDistinct es sorted) (λ k x v. refl) e in
      ends-ShowsAt es b r1.0 r.0 j sorted same (
        leaves-effect es b r1.0 r1.1 r u (λ k old w f. same k ∙ rw (not_in_view k es sorted w) f)
          (rw (process_all-append (accepted_changes es b) (accepted_leaves es b) b p, e) at h) j)
]

-- A baseline made of a view shows it.
pub to_baseline-Shows : (b : ViewBaseline) (es : List AoiEntity) → Shows b es (to_baseline es)
unfolding Shows to_baseline sent_state
to_baseline-Shows b es j = elim (Option-cases (view_find j es)) [
  | inl v ↦ rw (v, to_baseline_from-find j es [], v) tt
  | inr (x, v) ↦ rw (v, to_baseline_from-find j es [], v) (refl, refl, inl (refl, refl))
]
