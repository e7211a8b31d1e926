-- ===== src/Scene/Db/PendingTasks/Round.antt =====
-- The rounds by the index of active tasks: they do what a round over the whole table does in one
-- of its orders (sceneServer/src-cpp/db/taskDelivery.cc).
use mmorpg_game_server.Common.{
  ℕ, ◌≡◌, refl, sym, ◌∙◌, inl, inr, true, false, none, some, List, [], ◌∷◌, ◌==◌, if◌then◌else◌,
  Bool-cases, Option-cases, ==-refl, some-inj, ==→eq,
}
use mmorpg_game_server.Common.Map.{
  Map, find, insert, erase, has, IsMap, find-insert, find-erase, insert-IsMap, erase-IsMap,
}
use mmorpg_game_server.Scene.Db.Message.{Msg}
use mmorpg_game_server.Scene.Db.PendingTasks.{Task, needs_scheduling}
use mmorpg_game_server.Scene.Db.PendingTasks.Scan.{Advance, scan_active, scan_all}
use mmorpg_game_server.Scene.Db.PendingTasks.Index.{Indexed, has-insert}
use mmorpg_game_server.Scene.Db.PendingTasks.Step.{SameMap}

-- The table with the active tasks first, in the order of the index.
pub order : Map (Unit {0}) → Map Task → Map Task
order [] m = m
order ((id, u) ∷ active) m = elim (find id m) [
  | none ↦ order active m
  | some task ↦ (id, task) ∷ order active (erase id m)
]

pub order-SameMap : (active : Map (Unit {0})) (m : Map Task) → SameMap (order active m) m
unfolding order
order-SameMap [] m j = refl
order-SameMap ((id, u) ∷ active) m j = elim (Option-cases (find id m)) [
  | inl e ↦ rw (order, e) (order-SameMap active m j)
  | inr (task, e) ↦ elim (Bool-cases (id == j)) [
    | inl q ↦ rw (order, e, q, ← ==→eq id j q, e) refl
    | inr q ↦ rw (order, e, q) (order-SameMap active (erase id m) j ∙ find-erase id j m ∙ rw q refl)
  ]
]

pub order-IsMap : (active : Map (Unit {0})) (m : Map Task) → IsMap m → IsMap (order active m)
unfolding order
order-IsMap [] m h = h
order-IsMap ((id, u) ∷ active) m h = elim (Option-cases (find id m)) [
  | inl e ↦ rw (order, e) (order-IsMap active m h)
  | inr (task, e) ↦
      rw (order, e)
        (
          order-SameMap active (erase id m) id ∙ find-erase id id m ∙ rw (==-refl id) refl,
          order-IsMap active (erase id m) (erase-IsMap id m h),
        )
]

-- Every task that is not active is left alone.
abbrev Idle : Advance → Map (Unit {0}) → Map Task → Type 0
Idle f active m =
    (j : ℕ) (task : Task) (sent : List Msg)
    → find j m ≡ some task
    → has j active ≡ false
    → f task sent ≡ (task, sent)

scan_all-Idle :
    (f : Advance) (m : Map Task) (sent : List Msg)
    → IsMap m
    → Idle f [] m
    → scan_all f m sent ≡ (m, sent)
unfolding scan_all
scan_all-Idle f [] sent h idle = refl
scan_all-Idle f ((j, w) ∷ m) sent (g, h) idle =
    let rest = scan_all-Idle f m sent h (λ k task s e n. elim (Bool-cases (j == k)) [
      | inl q ↦ absurd (cc (g, ==→eq j k q, e))
      | inr q ↦ idle k task s (rw q e) n
    ]) in
    rw (scan_all, idle j w sent (rw (==-refl j) refl) refl, rest) refl

-- The round over the index of a table `m`, against the round over `n`, which has the same active
-- tasks and else only idle ones.
record Scanned (f : Advance) (active : Map (Unit {0})) (m n : Map Task) (sent : List Msg)
    : Type 0 where
  active_of : Map (Unit {0})
  tasks_of : Map Task
  scan_eq :
      scan_active f active m sent ≡ some (active_of, tasks_of, (scan_all f (order active n) sent).1)
  changed :
      (j : ℕ) → has j active ≡ true → find j tasks_of ≡ find j (scan_all f (order active n) sent).0
  kept : (j : ℕ) → has j active ≡ false → find j tasks_of ≡ find j m
  left : (j : ℕ) → has j active ≡ false → find j (scan_all f (order active n) sent).0 ≡ find j n
  has_eq : (j : ℕ) → has j tasks_of ≡ has j m
  tasks_map : IsMap m → IsMap tasks_of
  active_map : IsMap active_of
  sub : (j : ℕ) → has j active_of ≡ true → has j active ≡ true
  covers :
      (j : ℕ) (task : Task)
      → has j active ≡ true
      → find j tasks_of ≡ some task
      → needs_scheduling task ≡ true
      → has j active_of ≡ true

absent : {A : Type 0} (j : ℕ) (m : Map A) → find j m ≡ none → has j m ≡ false
absent j m e = rw (has, e) refl

no_find :
    (id : ℕ) (rest active : Map (Unit {0}))
    → ((j : ℕ) → has j rest ≡ true → has j active ≡ true)
    → find id active ≡ none
    → find id rest ≡ none
no_find id rest active sub new = elim (Option-cases (find id rest)) [
  | inl e ↦ e
  | inr (v, e) ↦ absurd (cc (rw (has, new) at (sub id (rw (has, e) refl))))
]

-- The index without its first number, on the table with the first task advanced.
first-Scanned :
    (f : Advance) (id : ℕ) (u : Unit {0}) (active : Map (Unit {0})) (m n : Map Task)
    (sent : List Msg) (task : Task)
    → find id active ≡ none
    → find id m ≡ some task
    → find id n ≡ some task
    → Scanned f active (insert id (f task sent).0 m) (erase id n) (f task sent).1
    → Scanned f ((id, u) ∷ active) m n sent
unfolding scan_active scan_all order
first-Scanned f id u active m n sent task new e g s =
    let next : Task = (f task sent).0 in
    let own : find id s.tasks_of ≡ some next =
      s.kept id (absent id active new) ∙ find-insert id id next m ∙ rw (==-refl id) refl in
    record {
      active_of = if needs_scheduling next then (id, u) ∷ s.active_of else s.active_of;
      tasks_of = s.tasks_of;
      scan_eq = rw (scan_active, e, s.scan_eq, order, g, scan_all) refl;
      changed = λ j k. elim (Bool-cases (id == j)) [
        | inl q ↦ rw (order, g, scan_all, q, ← ==→eq id j q, own) refl
        | inr q ↦ rw (order, g, scan_all, q) (s.changed j (rw (has, q) at k))
      ];
      kept = λ j k. elim (Bool-cases (id == j)) [
        | inl q ↦ absurd (cc (rw (has, q) at k))
        | inr q ↦ s.kept j (rw (has, q) at k) ∙ find-insert id j next m ∙ rw q refl
      ];
      left = λ j k. elim (Bool-cases (id == j)) [
        | inl q ↦ absurd (cc (rw (has, q) at k))
        | inr q ↦
            rw (order, g, scan_all, q) (s.left j (rw (has, q) at k) ∙ find-erase id j n ∙ rw q refl)
      ];
      has_eq = λ j. s.has_eq j ∙ has-insert id j next m ∙ elim (Bool-cases (id == j)) [
        | inl q ↦
            let present : has j m ≡ true = rw (has, rw (==→eq id j q) at e) refl in
            rw (q, present) refl
        | inr q ↦ rw q refl
      ];
      tasks_map = λ h. s.tasks_map (insert-IsMap id next m h);
      active_map = elim (Bool-cases (needs_scheduling next)) [
        | inl w ↦ rw w (no_find id s.active_of active s.sub new, s.active_map)
        | inr w ↦ rw w s.active_map
      ];
      sub = λ j k. elim (Bool-cases (id == j)) [
        | inl q ↦ rw (has, q) refl
        | inr q ↦
            rw (has, q)
              (s.sub j (elim (Bool-cases (needs_scheduling next)) [
                | inl w ↦ rw (w, has, q) at k
                | inr w ↦ rw w at k
              ]))
      ];
      covers = λ j t k d w. elim (Bool-cases (id == j)) [
        | inl q ↦
            let same : next ≡ t = some-inj (sym own ∙ rw (sym (==→eq id j q)) at d) in
            rw (rw (sym same) at w, has, q) refl
        | inr q ↦
            let there = s.covers j t (rw (has, q) at k) d w in
            elim (Bool-cases (needs_scheduling next)) [
              | inl v ↦ rw (v, has, q) there
              | inr v ↦ rw v there
            ]
      ];
    }

scan_active-Scanned :
    (f : Advance) (active : Map (Unit {0})) (m n : Map Task) (sent : List Msg)
    → IsMap active
    → IsMap n
    → ((j : ℕ) → has j active ≡ true → find j m ≡ find j n)
    → ((j : ℕ) → has j active ≡ true → has j n ≡ true)
    → Idle f active n
    → Scanned f active m n sent
unfolding scan_active order
scan_active-Scanned f [] m n sent a h agree known idle =
    let all : scan_all f n sent ≡ (n, sent) = scan_all-Idle f n sent h idle in
    record {
      active_of = [];
      tasks_of = m;
      scan_eq = rw (scan_active, order, all) refl;
      changed = λ j k. absurd (cc (k));
      kept = λ j k. refl;
      left = λ j k. rw (order, all) refl;
      has_eq = λ j. refl;
      tasks_map = λ x. x;
      active_map = tt;
      sub = λ j k. k;
      covers = λ j t k d w. k;
    }
scan_active-Scanned f ((id, u) ∷ active) m n sent (new, a) h agree known idle =
    let here : has id ((id, u) ∷ active) ≡ true = rw (has, ==-refl id) refl in
    elim (Option-cases (find id n)) [
      | inl e ↦ absurd (cc (rw (has, e) at (known id here)))
      | inr (task, e) ↦
          let there : (j : ℕ) → has j active ≡ true → (id == j) ≡ false = λ j k.
            elim (Bool-cases (id == j)) [
              | inl q ↦ absurd (cc (k, absent id active new, ==→eq id j q))
              | inr q ↦ q
            ] in
          first-Scanned f id u active m n sent task new (agree id here ∙ e) e (
            scan_active-Scanned f active (insert id (f task sent).0 m) (erase id n) (f task sent).1
              a (erase-IsMap id n h)
              (λ j k.
                rw (find-insert id j (f task sent).0 m, find-erase id j n, there j k)
                  (agree j (rw (has, there j k) k)))
              (λ j k. rw (has, find-erase id j n, there j k) (known j (rw (has, there j k) k)))
              (λ j t s d k. elim (Bool-cases (id == j)) [
                | inl q ↦ absurd (cc (rw (find-erase id j n, q) at d))
                | inr q ↦ idle j t s (rw (find-erase id j n, q) at d) (rw (has, q) k)
              ]))
    ]

-- A round by the index ends. It sends what the round over the table sends in the order `order`,
-- whatever the answers, and leaves the same tasks and a right index.
pub scan_index :
    (f : Advance) (m : Map Task) (active : Map (Unit {0}))
    → ((task : Task) (sent : List Msg) → needs_scheduling task ≡ false → f task sent ≡ (task, sent))
    → Indexed m active
    → (active' : Map (Unit {0})) × (m' : Map Task) × (scan_active f active m []
        ≡ some (active', m', (scan_all f (order active m) []).1))
      × SameMap m' (scan_all f (order active m) []).0
      × Indexed m' active'
scan_index f m active fix h =
    let s =
      scan_active-Scanned f active m m [] h.active_map h.tasks_map (λ j k. refl) h.known
        (λ j task sent e n. fix task sent (elim (Bool-cases (needs_scheduling task)) [
          | inl k ↦ absurd (cc (n, h.covers j task e k))
          | inr k ↦ k
        ])) in
    (
      s.active_of,
      s.tasks_of,
      s.scan_eq,
      (λ j. elim (Bool-cases (has j active)) [
        | inl k ↦ s.changed j k
        | inr k ↦ s.kept j k ∙ sym (s.left j k)
      ]),
      record {
        tasks_map = s.tasks_map h.tasks_map;
        active_map = s.active_map;
        covers = λ j t e w. elim (Bool-cases (has j active)) [
          | inl k ↦ s.covers j t k e w
          | inr k ↦ absurd (cc (k, h.covers j t (sym (s.kept j k) ∙ e) w))
        ];
        known = λ j k. s.has_eq j ∙ h.known j (s.sub j k);
      },
    )
