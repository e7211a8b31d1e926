-- ===== src/Scene/Aoi/ClientView/Effect.antt =====
-- What the pushes of a delta do to the baseline
-- (sceneServer/src-cpp/service/aoi/aoiClientView.cc and aoiViewSet.cc).
use mmorpg_game_server.Common.{
  ℕ, ◌≡◌, refl, sym, ap, ◌∙◌, ◌⊎◌, inl, inr, Bool, true, false, ◌||◌, not, Option, none, some, List,
  [], ◌∷◌, ◌++◌, arith, ◌==◌, if◌then◌else◌, Bool-cases, Option-cases, ==-refl, some-inj, ==→eq,
}
use mmorpg_game_server.Common.Map.{Map, find, erase, has, find-insert, find-erase, IsMap}
use mmorpg_game_server.Scene.Aoi.ViewSet.{
  ViewBaseline, SentEntityState, AcceptedPush, AoiMsgKind, valid_kind, process, process_all,
  refuses_entry, refuses_move, refuses_leave,
}
use mmorpg_game_server.Scene.Aoi.ClientView.Messages.{
  AoiEntity, pushed_state, change_push, is_entered, is_moved, in_view, accepted_changes,
  accepted_leaves,
}

-- The entity of the view with a number.
abbrev pub view_find : ℕ → List AoiEntity → Option AoiEntity
view_find j [] = none
view_find j (e ∷ es) = if e.entity_id == j then some e else view_find j es

-- No number stands twice in the view.
abbrev pub IsDistinct : List AoiEntity → Type 0
IsDistinct [] = Unit
IsDistinct (e ∷ es) = (view_find e.entity_id es ≡ none) × IsDistinct es

pub process_all-append :
    (xs ys : List AcceptedPush) (m : ViewBaseline) (p : Map (Unit {0}))
    → process_all (xs ++ ys) m p
      ≡ elim (process_all xs m p) [ none ↦ none | some r ↦ process_all ys r.0 r.1 ]
unfolding process_all
process_all-append [] ys m p = refl
process_all-append (x ∷ xs) ys m p =
    elim (Bool-cases (x.target_id == 0 || not (valid_kind x.state.kind))) [
      | inl e ↦ rw e refl
      | inr e ↦ elim (Option-cases (process x m)) [
        | inl q ↦ rw (e, q) refl
        | inr (m', q) ↦ rw (e, q) (process_all-append xs ys m' (erase x.target_id p))
      ]
    ]

-- The first push of a list that is accepted.
process_all-first :
    (x : AcceptedPush) (xs : List AcceptedPush) (m : ViewBaseline) (p : Map (Unit {0}))
    (r : ViewBaseline × Map (Unit {0}))
    → process_all (x ∷ xs) m p ≡ some r
    → (m' : ViewBaseline) × (process x m ≡ some m')
      × (process_all xs m' (erase x.target_id p) ≡ some r)
unfolding process_all
process_all-first x xs m p r h =
    elim (Bool-cases (x.target_id == 0 || not (valid_kind x.state.kind))) [
      | inl e ↦ absurd (cc (rw e at h))
      | inr e ↦ elim (Option-cases (process x m)) [
        | inl q ↦ absurd (cc (rw (e, q) at h))
        | inr (m', q) ↦ (m', q, rw (e, q) at h)
      ]
    ]

process-change :
    (x : AcceptedPush) (m m' : ViewBaseline) (j : ℕ)
    → (x.kind ≡ AoiMsgKind.entry) ⊎ (x.kind ≡ AoiMsgKind.move)
    → process x m ≡ some m'
    → find j m' ≡ (if x.target_id == j then some x.state else find j m)
unfolding process
process-change x m m' j (inl k) h = elim (Option-cases (find x.target_id m)) [
  | inl e ↦
      ap (find j) (sym (some-inj (rw (k, process, e) at h))) ∙ find-insert x.target_id j x.state m
  | inr (old, e) ↦ elim (Bool-cases (refuses_entry x.state old)) [
    | inl q ↦ absurd (cc (rw (k, process, e, q) at h))
    | inr q ↦
        ap (find j) (sym (some-inj (rw (k, process, e, q) at h)))
        ∙ find-insert x.target_id j x.state m
  ]
]
process-change x m m' j (inr k) h = elim (Option-cases (find x.target_id m)) [
  | inl e ↦ absurd (cc (rw (k, process, e) at h))
  | inr (old, e) ↦ elim (Bool-cases (refuses_move x.state old)) [
    | inl q ↦ absurd (cc (rw (k, process, e, q) at h))
    | inr q ↦
        ap (find j) (sym (some-inj (rw (k, process, e, q) at h)))
        ∙ find-insert x.target_id j x.state m
  ]
]

-- A leave that carries the state sent before is accepted.
pub process_own_leave :
    (x : AcceptedPush) (m : ViewBaseline)
    → x.kind ≡ AoiMsgKind.leave
    → find x.target_id m ≡ some x.state
    → process x m ≡ some (erase x.target_id m)
unfolding process refuses_leave
process_own_leave x m k f = rw (k, process, f) (ground arith)

process-leave :
    (x : AcceptedPush) (m m' : ViewBaseline) (j : ℕ)
    → x.kind ≡ AoiMsgKind.leave
    → find x.target_id m ≡ some x.state
    → process x m ≡ some m'
    → find j m' ≡ (if x.target_id == j then none else find j m)
process-leave x m m' j k f h =
    ap (find j) (sym (some-inj (sym (process_own_leave x m k f) ∙ h))) ∙ find-erase x.target_id j m

-- The state that an entity of the view has after its push, if any.
abbrev pub next_state : ViewBaseline → AoiEntity → Option SentEntityState
next_state b e =
    if is_entered b e
    then some (pushed_state e)
    else if is_moved b e
    then some (pushed_state e)
    else find e.entity_id b

-- `find j` after the pushes for the view, started at a baseline `m`.
abbrev Left : List AoiEntity → ViewBaseline → ViewBaseline → ViewBaseline → ℕ → Type 0
Left es b m m' j = find j m' ≡ elim (view_find j es) [ none ↦ find j m | some e ↦ next_state b e ]

-- The baseline `m` has what `b` has for the entities of the list.
abbrev pub Agrees : List AoiEntity → ViewBaseline → ViewBaseline → Type 0
Agrees es b m = (j : ℕ) (e : AoiEntity) → view_find j es ≡ some e → find j m ≡ find j b

Left-first :
    (e : AoiEntity) (es : List AoiEntity) (b m m' m'' : ViewBaseline) (j : ℕ)
    → view_find e.entity_id es ≡ none
    → next_state b e ≡ find e.entity_id m'
    → ((e.entity_id == j) ≡ false → find j m' ≡ find j m)
    → Left es b m' m'' j
    → Left (e ∷ es) b m m'' j
Left-first e es b m m' m'' j new s other ih = elim (Bool-cases (e.entity_id == j)) [
  | inl q ↦ rw q (
      rw (ap (λ k. view_find k es) (sym (==→eq e.entity_id j q)) ∙ new) at ih
      ∙ ap (λ k. find k m') (sym (==→eq e.entity_id j q))
      ∙ sym s)
  | inr q ↦ elim (Option-cases (view_find j es)) [
    | inl v ↦ rw (q, v) (rw v at ih ∙ other q)
    | inr (e', v) ↦ rw (q, v) (rw v at ih)
  ]
]

pub Agrees-first :
    (e : AoiEntity) (es : List AoiEntity) (b m m' : ViewBaseline)
    → view_find e.entity_id es ≡ none
    → ((j : ℕ) → (e.entity_id == j) ≡ false → find j m' ≡ find j m)
    → Agrees (e ∷ es) b m
    → Agrees es b m'
Agrees-first e es b m m' new other keep j e' f = elim (Bool-cases (e.entity_id == j)) [
  | inl q ↦ absurd (cc (new, ==→eq e.entity_id j q, f))
  | inr q ↦ other j q ∙ keep j e' (rw q f)
]

pushed-Left :
    (k : AoiMsgKind) (e : AoiEntity) (es : List AoiEntity) (b m : ViewBaseline) (p : Map (Unit {0}))
    (r : ViewBaseline × Map (Unit {0})) (j : ℕ)
    → (k ≡ AoiMsgKind.entry) ⊎ (k ≡ AoiMsgKind.move)
    → view_find e.entity_id es ≡ none
    → Agrees (e ∷ es) b m
    → next_state b e ≡ some (pushed_state e)
    → ((m' : ViewBaseline) (p' : Map (Unit {0}))
        → Agrees es b m'
        → process_all (accepted_changes es b) m' p' ≡ some r
        → Left es b m' r.0 j)
    → process_all (change_push k e ∷ accepted_changes es b) m p ≡ some r
    → Left (e ∷ es) b m r.0 j
unfolding change_push
pushed-Left k e es b m p r j kind new keep s ih h =
    let first = process_all-first (change_push k e) (accepted_changes es b) m p r h in
    let after = λ (i : ℕ). process-change (change_push k e) m first.0 i kind first.1 in
    Left-first e es b m first.0 r.0 j new
      (s ∙ sym (after e.entity_id ∙ rw (==-refl e.entity_id) refl)) (λ o. after j ∙ rw o refl)
      (ih first.0 (erase e.entity_id p)
        (Agrees-first e es b m first.0 new (λ i o. after i ∙ rw o refl) keep) first.2)

-- What the pushes for the view leave behind.
pub changes-effect :
    (es : List AoiEntity) (b m : ViewBaseline) (p : Map (Unit {0}))
    (r : ViewBaseline × Map (Unit {0}))
    → IsDistinct es
    → Agrees es b m
    → process_all (accepted_changes es b) m p ≡ some r
    → (j : ℕ) → Left es b m r.0 j
unfolding process_all accepted_changes
changes-effect [] b m p r d keep h j = cc (h)
changes-effect (e ∷ es) b m p r (new, d) keep h j = elim (Bool-cases (is_entered b e)) [
  | inl t ↦
      pushed-Left AoiMsgKind.entry e es b m p r j (inl refl) new keep (rw t refl)
        (λ m' p' a h'. changes-effect es b m' p' r d a h' j) (rw (accepted_changes, t) at h)
  | inr t ↦ elim (Bool-cases (is_moved b e)) [
    | inl t' ↦
        pushed-Left AoiMsgKind.move e es b m p r j (inr refl) new keep (rw (t, t') refl)
          (λ m' p' a h'. changes-effect es b m' p' r d a h' j) (rw (accepted_changes, t, t') at h)
    | inr t' ↦
        Left-first e es b m m r.0 j new
          (rw (t, t') (sym (keep e.entity_id e (rw (==-refl e.entity_id) refl)))) (λ o. refl)
          (changes-effect es b m p r d (Agrees-first e es b m m new (λ k o. refl) keep)
            (rw (accepted_changes, t, t') at h) j)
  ]
]

if-none :
    (c : Bool) {x y : Option SentEntityState} → x ≡ (if c then y else none) → y ≡ none → x ≡ none
if-none true h e = h ∙ e
if-none false h e = h

-- What the pushes for the entries that left do.
pub leaves-effect :
    (current : List AoiEntity) (b m : ViewBaseline) (p : Map (Unit {0}))
    (r : ViewBaseline × Map (Unit {0}))
    → IsMap b
    → ((j : ℕ) (old : SentEntityState)
        → in_view j current ≡ false
        → find j b ≡ some old
        → find j m ≡ some old)
    → process_all (accepted_leaves current b) m p ≡ some r
    → (j : ℕ) → find j r.0 ≡ (if in_view j current || not (has j b) then find j m else none)
unfolding process_all accepted_leaves
leaves-effect current [] m p r u keep h j = elim (Bool-cases (in_view j current)) [
  | inl t ↦ rw t (cc (h))
  | inr t ↦ rw t (cc (h))
]
leaves-effect current ((i, old) ∷ b) m p r (new, u) keep h j =
    elim (Bool-cases (in_view i current)) [
      | inl t ↦
          let ih =
            leaves-effect current b m p r u
              (λ k o w f. keep k o w (elim (Bool-cases (i == k)) [
                | inl q ↦ absurd (cc (rw (==→eq i k q) at t, w))
                | inr q ↦ rw q f
              ]))
              (rw (accepted_leaves, t) at h) j in
          elim (Bool-cases (i == j)) [
            | inl q ↦ rw (has, q, rw (==→eq i j q) at t) (rw (rw (==→eq i j q) at t) at ih)
            | inr q ↦ rw (has, q) ih
          ]
      | inr t ↦
          let push : AcceptedPush = record {
            kind = AoiMsgKind.leave;
            target_id = i;
            state = old;
          } in
          let first =
            process_all-first push (accepted_leaves current b) m p r
              (rw (accepted_leaves, t) at h) in
          let after = λ (k : ℕ).
            process-leave push m first.0 k refl (keep i old t (rw (==-refl i) refl)) first.1 in
          let ih =
            leaves-effect current b first.0 (erase i p) r u
              (λ k o w f. elim (Bool-cases (i == k)) [
                | inl q ↦ absurd (cc (new, ==→eq i k q, f))
                | inr q ↦ after k ∙ rw q (keep k o w (rw q f))
              ])
              first.2 j in
          elim (Bool-cases (i == j)) [
            | inl q ↦
                rw (has, q, rw (==→eq i j q) at t)
                  (if-none (in_view j current || not (has j b)) ih (after j ∙ rw q refl))
            | inr q ↦
                rw (has, q)
                  (ih
                    ∙ ap (λ y. if in_view j current || not (has j b) then y else none)
                        (after j ∙ rw q refl))
          ]
    ]
