-- ===== src/Common/Map.antt =====
-- `std::unordered_map` with integer keys, as an association list. Its iteration order, which the
-- standard leaves open, is the list's order.
use mmorpg_game_server.Common.{
  ℕ, ◌+◌, ◌≤◌, ◌≡◌, refl, Bool, true, false, Option, none, some, List, [], ◌∷◌, arith, ◌==◌,
  if◌then◌else◌, length, Bool-cases, Option-cases, inl, inr, ==→eq, ==-refl,
}

abbrev pub Map {ℓ} : Type ℓ → Type ℓ
Map V = List (ℕ × V)

module _ {ℓ} {V : Type ℓ} where
  abbrev pub find : ℕ → Map V → Option V
  find k [] = none
  find k ((j, v) ∷ m) = if j == k then some v else find k m

  -- `m[k] = v`
  abbrev pub insert : ℕ → V → Map V → Map V
  insert k v [] = (k, v) ∷ []
  insert k v ((j, w) ∷ m) = if j == k then (k, v) ∷ m else (j, w) ∷ insert k v m

  -- `m.erase(k)`
  abbrev pub erase : ℕ → Map V → Map V
  erase k [] = []
  erase k ((j, w) ∷ m) = if j == k then erase k m else (j, w) ∷ erase k m

  -- `m.count(k) != 0`
  abbrev pub has : ℕ → Map V → Bool
  has k m = elim (find k m) [ none ↦ false | some v ↦ true ]

  -- The loop that erases the entries that pass no test, and steps over the others.
  abbrev pub keep : (V → Bool) → Map V → Map V
  keep p [] = []
  keep p ((j, w) ∷ m) = if p w then (j, w) ∷ keep p m else keep p m

  abbrev pub values : Map V → List V
  values [] = []
  values ((j, w) ∷ m) = w ∷ values m

  -- Every key stands in the list once, as in every map.
  abbrev pub IsMap : Map V → Type ℓ
  IsMap [] = Unit
  IsMap ((j, w) ∷ m) = (find j m ≡ none) × IsMap m

  pub has-none : (k : ℕ) (m : Map V) → has k m ≡ false → find k m ≡ none
  has-none k m h = elim (Option-cases (find k m)) [
    | inl e ↦ e
    | inr (v, e) ↦ absurd (cc (rw (e, has) at h))
  ]

  pub find-insert :
      (k j : ℕ) (v : V) (m : Map V) → find j (insert k v m) ≡ (if k == j then some v else find j m)
  find-insert k j v [] = refl
  find-insert k j v ((i, w) ∷ m) = ground (arith, find-insert k j v m)

  pub find-insert_self : (k : ℕ) (v : V) (m : Map V) → find k (insert k v m) ≡ some v
  find-insert_self k v m = ground (arith, find-insert k k v m)

  pub find-erase : (k j : ℕ) (m : Map V) → find j (erase k m) ≡ (if k == j then none else find j m)
  find-erase k j [] = ground arith
  find-erase k j ((i, w) ∷ m) = ground (arith, find-erase k j m)

  pub insert-insert : (k : ℕ) (v w : V) (m : Map V) → insert k v (insert k w m) ≡ insert k v m
  insert-insert k v w [] = rw (==-refl k) refl
  insert-insert k v w ((i, u) ∷ m) = ground (arith, insert-insert k v w m)

  pub erase-insert : (k : ℕ) (v : V) (m : Map V) → erase k (insert k v m) ≡ erase k m
  erase-insert k v [] = rw (==-refl k) refl
  erase-insert k v ((i, u) ∷ m) = ground (arith, erase-insert k v m)

  pub find-erase_self : (k : ℕ) (m : Map V) → find k (erase k m) ≡ none
  find-erase_self k m = ground (arith, find-erase k k m)

  pub insert-IsMap : (k : ℕ) (v : V) (m : Map V) → IsMap m → IsMap (insert k v m)
  insert-IsMap k v [] h = (refl, tt)
  insert-IsMap k v ((i, w) ∷ m) (f, h) = elim (Bool-cases (i == k)) [
    | inl e ↦ rw e (ground (arith, ==→eq i k e), h)
    | inr e ↦ rw e (ground (arith, find-insert k i v m), insert-IsMap k v m h)
  ]

  pub erase-IsMap : (k : ℕ) (m : Map V) → IsMap m → IsMap (erase k m)
  erase-IsMap k [] h = tt
  erase-IsMap k ((i, w) ∷ m) (f, h) = elim (Bool-cases (i == k)) [
    | inl e ↦ rw e (erase-IsMap k m h)
    | inr e ↦ rw e (ground (arith, find-erase k i m), erase-IsMap k m h)
  ]

  pub find-keep-none :
      (p : V → Bool) (k : ℕ) (m : Map V) → find k m ≡ none → find k (keep p m) ≡ none
  find-keep-none p k [] h = refl
  find-keep-none p k ((i, w) ∷ m) h = ground (arith, find-keep-none p k m)

  -- What the erasing loop leaves: the entries that pass the test.
  pub find-keep :
      (p : V → Bool) (k : ℕ) (m : Map V)
      → IsMap m
      → find k (keep p m) ≡ elim (find k m) [ none ↦ none | some v ↦ if p v then some v else none ]
  find-keep p k [] h = refl
  find-keep p k ((i, w) ∷ m) (f, h) = ground (arith, find-keep p k m h, find-keep-none p k m)

  pub keep-IsMap : (p : V → Bool) (m : Map V) → IsMap m → IsMap (keep p m)
  keep-IsMap p [] h = tt
  keep-IsMap p ((i, w) ∷ m) (f, h) = elim (Bool-cases (p w)) [
    | inl e ↦ rw e (find-keep-none p i m f, keep-IsMap p m h)
    | inr e ↦ rw e (keep-IsMap p m h)
  ]

  pub length-insert :
      (k : ℕ) (v : V) (m : Map V)
      → length (insert k v m) ≡ (if has k m then length m else length m + 1)
  length-insert k v [] = refl
  length-insert k v ((i, w) ∷ m) = ground (arith, length-insert k v m)

  pub length-erase-le : (k : ℕ) (m : Map V) → length (erase k m) ≤ length m
  length-erase-le k [] = omega arith
  length-erase-le k ((i, w) ∷ m) = ground (arith, length-erase-le k m)

  pub erase_absent : (k : ℕ) (m : Map V) → find k m ≡ none → erase k m ≡ m
  erase_absent k [] h = refl
  erase_absent k ((i, w) ∷ m) h = ground (arith, erase_absent k m)

  pub length-erase :
      (k : ℕ) (v : V) (m : Map V) → IsMap m → find k m ≡ some v → length (erase k m) + 1 ≡ length m
  length-erase k v [] h e = ground arith
  length-erase k v ((i, w) ∷ m) (f, h) e = ground (arith, length-erase k v m h, erase_absent k m)

  pub length-keep-le : (p : V → Bool) (m : Map V) → length (keep p m) ≤ length m
  length-keep-le p [] = omega arith
  length-keep-le p ((i, w) ∷ m) = ground (arith, length-keep-le p m)
