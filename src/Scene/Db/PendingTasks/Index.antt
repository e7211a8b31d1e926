-- ===== src/Scene/Db/PendingTasks/Index.antt =====
-- The index of active tasks under the changes of the table
-- (sceneServer/src-cpp/db/taskDelivery.cc).
use mmorpg_game_server.Common.{
  ℕ, ◌≡◌, refl, ap, ◌∙◌, inl, inr, Bool, true, false, ◌&&◌, ◌||◌, not, some, ◌==◌, Bool-cases,
  some-inj, ==→eq,
}
use mmorpg_game_server.Common.Map.{
  Map, find, insert, erase, has, IsMap, find-insert, find-erase, erase-IsMap, insert-IsMap,
}
use mmorpg_game_server.Scene.Db.PendingTasks.{Task, needs_scheduling}

-- Every task that wants scheduling is in the index, and the index has only numbers of tasks.
pub record Indexed (m : Map Task) (active : Map (Unit {0})) : Type 0 where
  pub tasks_map : IsMap m
  pub active_map : IsMap active
  pub covers :
      (j : ℕ) (task : Task)
      → find j m ≡ some task
      → needs_scheduling task ≡ true
      → has j active ≡ true
  pub known : (j : ℕ) → has j active ≡ true → has j m ≡ true

pub has-insert :
    {A : Type 0} (k j : ℕ) (v : A) (m : Map A) → has j (insert k v m) ≡ (k == j || has j m)
has-insert k j v m =
    rw (has, find-insert k j v m)
      (elim (Bool-cases (k == j)) [ inl e ↦ rw e refl | inr e ↦ rw e refl ])

has-erase : {A : Type 0} (k j : ℕ) (m : Map A) → has j (erase k m) ≡ (not (k == j) && has j m)
has-erase k j m =
    rw (has, find-erase k j m)
      (elim (Bool-cases (k == j)) [ inl e ↦ rw e refl | inr e ↦ rw e refl ])

pub or-true : (a b : Bool) → b ≡ true → (a || b) ≡ true
or-true true b h = refl
or-true false b h = h

pub put-Indexed :
    (id : ℕ) (task : Task) (m : Map Task) (active : Map (Unit {0}))
    → Indexed m active
    → Indexed (insert id task m) (insert id tt active)
put-Indexed id task m active h = record {
  tasks_map = insert-IsMap id task m h.tasks_map;
  active_map = insert-IsMap id tt active h.active_map;
  covers = λ j t f n. elim (Bool-cases (id == j)) [
    | inl e ↦ has-insert id j tt active ∙ rw e refl
    | inr e ↦
        has-insert id j tt active ∙ rw e (h.covers j t (rw (find-insert id j task m, e) at f) n)
  ];
  known = λ j k. elim (Bool-cases (id == j)) [
    | inl e ↦ has-insert id j task m ∙ rw e refl
    | inr e ↦ has-insert id j task m ∙ rw e (h.known j (rw (has-insert id j tt active, e) at k))
  ];
}

pub update-Indexed :
    (id : ℕ) (old task : Task) (m : Map Task) (active : Map (Unit {0}))
    → Indexed m active
    → find id m ≡ some old
    → (needs_scheduling task ≡ true → needs_scheduling old ≡ true)
    → Indexed (insert id task m) active
update-Indexed id old task m active h found needs = record {
  tasks_map = insert-IsMap id task m h.tasks_map;
  active_map = h.active_map;
  covers = λ j t f n. elim (Bool-cases (id == j)) [
    | inl e ↦
        h.covers j old (rw (==→eq id j e) at found)
          (needs (ap needs_scheduling (some-inj (rw (find-insert id j task m, e) at f)) ∙ n))
    | inr e ↦ h.covers j t (rw (find-insert id j task m, e) at f) n
  ];
  known = λ j k. has-insert id j task m ∙ or-true (id == j) (has j m) (h.known j k);
}

pub drop-Indexed :
    (id : ℕ) (m : Map Task) (active : Map (Unit {0}))
    → Indexed m active
    → Indexed (erase id m) (erase id active)
drop-Indexed id m active h = record {
  tasks_map = erase-IsMap id m h.tasks_map;
  active_map = erase-IsMap id active h.active_map;
  covers = λ j t f n. elim (Bool-cases (id == j)) [
    | inl e ↦ absurd (cc (rw (find-erase id j m, e) at f))
    | inr e ↦ has-erase id j active ∙ rw e (h.covers j t (rw (find-erase id j m, e) at f) n)
  ];
  known = λ j k. elim (Bool-cases (id == j)) [
    | inl e ↦ absurd (cc (rw (has-erase id j active, e) at k))
    | inr e ↦ has-erase id j m ∙ rw e (h.known j (rw (has-erase id j active, e) at k))
  ];
}
