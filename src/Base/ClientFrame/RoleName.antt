-- ===== src/Base/ClientFrame/RoleName.antt =====
-- Role names in their fixed field.
use mmorpg_game_server.Common.{
  ℕ, zero, suc, ◌-◌, ◌≤◌, ◌≡◌, refl, ◌≢◌, inl, inr, true, [], ◌∷◌, ◌++◌, arith, Bool-cases, length,
  take, drop, replicate, drop-length-append, take-append-drop, All, All-append,
}
use mmorpg_game_server.Base.Bytes.{Bytes}
use mmorpg_game_server.Base.ClientFrame.{
  role_name_size, sequence_length, all_continuations, sequence_ok, valid_characters,
  valid_role_name, pad, name_of, all_zero, field_ok,
}

-- A role name that is accepted holds no zero byte, so its padding ends it.
abbrev pub NoZero : Bytes → Type 0
NoZero = All (λ c. c ≢ 0)

all_continuations-NoZero : (cs : Bytes) → all_continuations cs ≡ true → NoZero cs
unfolding all_continuations
all_continuations-NoZero [] h = tt
all_continuations-NoZero (c ∷ cs) h =
    (λ (z : c ≡ 0). cc (rw z at h), all_continuations-NoZero cs (ground arith))

sequence_ok-NoZero :
    (c n : ℕ) (rest : Bytes) → sequence_ok c n rest ≡ true → (c ≢ 0) × NoZero (take (n - 1) rest)
unfolding sequence_ok
sequence_ok-NoZero c n rest h =
    (ground arith, all_continuations-NoZero (take (n - 1) rest) (ground arith))

valid_characters-NoZero :
    (fuel : ℕ) (name : Bytes) → valid_characters fuel name ≡ true → NoZero name
unfolding valid_characters
valid_characters-NoZero fuel [] h = tt
valid_characters-NoZero zero (c ∷ rest) h = cc
valid_characters-NoZero (suc fuel) (c ∷ rest) h =
    elim (Bool-cases (sequence_ok c (sequence_length c) rest)) [
      | inr e ↦ cc (rw (e, valid_characters) at h)
      | inl e ↦
          let s = sequence_ok-NoZero c (sequence_length c) rest e in
          let later =
            valid_characters-NoZero fuel (drop (sequence_length c - 1) rest)
              (rw (e, valid_characters) at h) in
          (
            s.0,
            rw (take-append-drop (sequence_length c - 1) rest) at (
                All-append (λ c. c ≢ 0) (take (sequence_length c - 1) rest)
                  (drop (sequence_length c - 1) rest) s.1 later),
          )
    ]

pub valid_role_name-NoZero :
    (name : Bytes) → valid_role_name name ≡ true → (length name ≤ role_name_size) × NoZero name
unfolding valid_role_name
valid_role_name-NoZero name h =
    (ground arith, valid_characters-NoZero (length name) name (ground arith))

all_zero-replicate : (n : ℕ) → all_zero (replicate n 0) ≡ true
unfolding all_zero
all_zero-replicate zero = refl
all_zero-replicate (suc n) = all_zero-replicate n

name_of-append : (name : Bytes) (n : ℕ) → NoZero name → name_of (name ++ replicate n 0) ≡ name
unfolding name_of
name_of-append [] zero h = refl
name_of-append [] (suc n) h = refl
name_of-append (c ∷ name) n (hc, hs) = ground (arith, name_of-append name n hs)

-- The padded field of an accepted name gives back the name and passes the decoder's checks.
pub field-pad :
    (name : Bytes)
    → valid_role_name name ≡ true
    → (name_of (pad name) ≡ name) × (field_ok (pad name) ≡ true)
unfolding pad field_ok
field-pad name h =
    let z = valid_role_name-NoZero name h in
    let e : name_of (pad name) ≡ name = name_of-append name (role_name_size - length name) z.1 in
    (
      e,
      rw (
        e,
        drop-length-append (length name) name (replicate (role_name_size - length name) 0) refl,
        all_zero-replicate (role_name_size - length name),
        h,
      ),
    )
