-- ===== src/Scene/Aoi/ClientView/Sorted.antt =====
-- The sorted view, and the search in it (sceneServer/src-cpp/service/aoi/aoiClientView.cc).
use mmorpg_game_server.Common.{
  ℕ, ◌<◌, ◌≡◌, refl, ◌∙◌, inl, inr, true, false, none, some, List, [], ◌∷◌, arith, ltb, ◌==◌,
  if◌then◌else◌, Bool-cases, All,
}
use mmorpg_game_server.Scene.Aoi.ClientView.Messages.{AoiEntity, sort_view, in_view}
use mmorpg_game_server.Scene.Aoi.ClientView.Messages.{insert_entity}
use mmorpg_game_server.Scene.Aoi.ClientView.Effect.{view_find, IsDistinct}

abbrev pub IsSorted : List AoiEntity → Type 0
IsSorted [] = Unit
IsSorted (e ∷ es) = All (λ x. e.entity_id < x.entity_id) es × IsSorted es

view_find-above :
    (j : ℕ) (es : List AoiEntity) → All (λ x. j < x.entity_id) es → view_find j es ≡ none
view_find-above j [] a = refl
view_find-above j (e ∷ es) (h, a) = ground (arith, view_find-above j es a)

All-above :
    (j k : ℕ) (es : List AoiEntity)
    → j < k
    → All (λ x. k < x.entity_id) es
    → All (λ x. j < x.entity_id) es
All-above j k [] l a = tt
All-above j k (e ∷ es) l (h, a) = (omega arith, All-above j k es l a)

pub IsSorted-IsDistinct : (es : List AoiEntity) → IsSorted es → IsDistinct es
IsSorted-IsDistinct [] h = tt
IsSorted-IsDistinct (e ∷ es) (a, h) = (view_find-above e.entity_id es a, IsSorted-IsDistinct es h)

-- The binary search finds what the linear one does.
pub in_view-view_find :
    (j : ℕ) (es : List AoiEntity)
    → IsSorted es
    → in_view j es ≡ elim (view_find j es) [ none ↦ false | some e ↦ true ]
unfolding in_view
in_view-view_find j [] h = refl
in_view-view_find j (e ∷ es) (a, h) = elim (Bool-cases (ltb e.entity_id j)) [
  | inl l ↦ ground (arith, in_view-view_find j es h)
  | inr l ↦ elim (Bool-cases (e.entity_id == j)) [
    | inl q ↦ rw (l, q) refl
    | inr q ↦ rw (l, q, view_find-above j es (All-above j e.entity_id es (ground arith) a)) refl
  ]
]

All-insert_entity :
    (k : ℕ) (e : AoiEntity) (es : List AoiEntity)
    → k < e.entity_id
    → All (λ x. k < x.entity_id) es
    → All (λ x. k < x.entity_id) (insert_entity e es)
unfolding insert_entity
All-insert_entity k e [] h a = (h, a)
All-insert_entity k e (x ∷ xs) h (y, a) = elim (Bool-cases (ltb e.entity_id x.entity_id)) [
  | inl l ↦ rw l (h, (y, a))
  | inr l ↦ rw l (y, All-insert_entity k e xs h a)
]

insert_entity-IsSorted :
    (e : AoiEntity) (es : List AoiEntity)
    → view_find e.entity_id es ≡ none
    → IsSorted es
    → IsSorted (insert_entity e es)
unfolding insert_entity
insert_entity-IsSorted e [] new h = (tt, tt)
insert_entity-IsSorted e (x ∷ xs) new (a, h) = elim (Bool-cases (x.entity_id == e.entity_id)) [
  | inl q ↦ absurd (cc (rw q at new))
  | inr q ↦ elim (Bool-cases (ltb e.entity_id x.entity_id)) [
    | inl l ↦ rw l ((ground arith, All-above e.entity_id x.entity_id xs (ground arith) a), (a, h))
    | inr l ↦ rw l (
      All-insert_entity x.entity_id e xs (ground arith) a,
      insert_entity-IsSorted e xs (rw q at new) h,
    )
  ]
]

view_find-insert_entity :
    (j : ℕ) (e : AoiEntity) (es : List AoiEntity)
    → view_find e.entity_id es ≡ none
    → view_find j (insert_entity e es) ≡ (if e.entity_id == j then some e else view_find j es)
unfolding insert_entity
view_find-insert_entity j e [] new = refl
view_find-insert_entity j e (x ∷ xs) new = elim (Bool-cases (x.entity_id == e.entity_id)) [
  | inl q ↦ absurd (cc (rw q at new))
  | inr q ↦ elim (Bool-cases (ltb e.entity_id x.entity_id)) [
    | inl l ↦ rw l refl
    | inr l ↦ rw l (ground (arith, view_find-insert_entity j e xs (rw q at new)))
  ]
]

-- Sorting changes no search.
pub view_find-sort_view :
    (j : ℕ) (es : List AoiEntity) → IsDistinct es → view_find j (sort_view es) ≡ view_find j es
unfolding sort_view
view_find-sort_view j [] d = refl
view_find-sort_view j (e ∷ es) (new, d) =
    view_find-insert_entity j e (sort_view es) (view_find-sort_view e.entity_id es d ∙ new)
    ∙ rw (view_find-sort_view j es d) refl

pub sort_view-IsSorted : (es : List AoiEntity) → IsDistinct es → IsSorted (sort_view es)
unfolding sort_view
sort_view-IsSorted [] d = tt
sort_view-IsSorted (e ∷ es) (new, d) =
    insert_entity-IsSorted e (sort_view es) (view_find-sort_view e.entity_id es d ∙ new)
      (sort_view-IsSorted es d)
