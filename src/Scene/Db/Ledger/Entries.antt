-- ===== src/Scene/Db/Ledger/Entries.antt =====
-- The entries of the ledger that stay where others are put, dropped and delivered
-- (sceneServer/src-cpp/db/taskDelivery.cc).
use mmorpg_game_server.Common.{
  ℕ, ◌≡◌, refl, sym, ◌∙◌, inl, inr, true, false, ◌&&◌, not, some, List, [], ◌∷◌, leb, ◌==◌,
  Bool-cases, Option-cases, some-inj, ==→eq,
}
use mmorpg_game_server.Common.Map.{Map, find, insert, find-insert}
use mmorpg_game_server.Scene.Db.Message.{Msg}
use mmorpg_game_server.Scene.Db.PendingTasks.{Sender}
use mmorpg_game_server.Scene.Db.Ledger.{Entry, drop_acknowledged, deliver, deliver_all}

-- The request stands under its number and is not acknowledged.
pub record Held (id : ℕ) (request : Msg) (entries : Map Entry) : Type 0 where
  pub entry_of : Entry
  pub found : find id entries ≡ some entry_of
  pub request_eq : entry_of.request ≡ request
  pub waits : entry_of.acknowledged ≡ false

pub insert-Held :
    (id k : ℕ) (request : Msg) (entry : Entry) (m : Map Entry)
    → Held id request m
    → ((k == id) ≡ true → (entry.request ≡ request) × (entry.acknowledged ≡ false))
    → Held id request (insert k entry m)
insert-Held id k request entry m h f = elim (Bool-cases (k == id)) [
  | inl e ↦ record {
    entry_of = entry;
    found = find-insert k id entry m ∙ rw e refl;
    request_eq = (f e).0;
    waits = (f e).1;
  }
  | inr e ↦ record {
    entry_of = h.entry_of;
    found = find-insert k id entry m ∙ rw e h.found;
    request_eq = h.request_eq;
    waits = h.waits;
  }
]

-- The entry under a number that is held is the held one.
pub Held-entry :
    (id k : ℕ) (request : Msg) (entry : Entry) (m : Map Entry)
    → Held id request m
    → find k m ≡ some entry
    → (k == id) ≡ true
    → (entry.request ≡ request) × (entry.acknowledged ≡ false)
Held-entry id k request entry m h e q =
    let same_entry : h.entry_of ≡ entry = some-inj (sym h.found ∙ rw (==→eq k id q) at e) in
    (rw same_entry at h.request_eq, rw same_entry at h.waits)

below :
    (id j : ℕ) (request : Msg) (entry : Entry) (m : Map Entry)
    → Held id request ((j, entry) ∷ m)
    → (j == id) ≡ false
    → Held id request m
below id j request entry m h q = record {
  entry_of = h.entry_of;
  found = rw q at h.found;
  request_eq = h.request_eq;
  waits = h.waits;
}

above :
    (id j : ℕ) (request : Msg) (entry : Entry) (m : Map Entry)
    → Held id request m
    → (j == id) ≡ false
    → Held id request ((j, entry) ∷ m)
above id j request entry m h q = record {
  entry_of = h.entry_of;
  found = rw q h.found;
  request_eq = h.request_eq;
  waits = h.waits;
}

deliver-request :
    (send : Sender) (now : ℕ) (entry : Entry) (sent : List Msg)
    → ((deliver send now entry sent).0.request ≡ entry.request)
      × ((deliver send now entry sent).0.acknowledged ≡ entry.acknowledged)
unfolding deliver
deliver-request send now entry sent = elim (Option-cases entry.result) [
  | inl e ↦ (rw (deliver, e) refl, rw (deliver, e) refl)
  | inr (r, e) ↦
      elim (Bool-cases (entry.ready && (not entry.acknowledged && leb entry.next_send_at now))) [
        | inl c ↦ (rw (deliver, e, c) refl, rw (deliver, e, c) refl)
        | inr c ↦ (rw (deliver, e, c) refl, rw (deliver, e, c) refl)
      ]
]

pub drop_acknowledged-Held :
    (id : ℕ) (request : Msg) (m rest : Map Entry)
    → Held id request m
    → drop_acknowledged m ≡ some rest
    → Held id request rest
unfolding drop_acknowledged
drop_acknowledged-Held id request [] rest h e = absurd (cc (e))
drop_acknowledged-Held id request ((j, entry) ∷ m) rest h e = elim (Bool-cases entry.acknowledged) [
  | inl a ↦ elim (Bool-cases (j == id)) [
    | inl q ↦ absurd (cc (a, h.waits, rw q at h.found))
    | inr q ↦ rw (← some-inj (rw (drop_acknowledged, a) at e)) (below id j request entry m h q)
  ]
  | inr a ↦ elim (Option-cases (drop_acknowledged m)) [
    | inl t ↦ absurd (cc (rw (drop_acknowledged, a, t) at e))
    | inr (r, t) ↦
        rw (← some-inj (rw (drop_acknowledged, a, t) at e)) (elim (Bool-cases (j == id)) [
          | inl q ↦ record {
            entry_of = h.entry_of;
            found = rw q (rw q at h.found);
            request_eq = h.request_eq;
            waits = h.waits;
          }
          | inr q ↦
              above id j request entry r
                (drop_acknowledged-Held id request m r (below id j request entry m h q) t) q
        ])
  ]
]

pub deliver-Held :
    (send : Sender) (now id : ℕ) (request : Msg) (m : Map Entry) (sent : List Msg)
    → Held id request m
    → Held id request (deliver_all send now m sent).0
unfolding deliver_all
deliver-Held send now id request [] sent h = h
deliver-Held send now id request ((j, entry) ∷ m) sent h =
    let next = deliver send now entry sent in
    let same_head = deliver-request send now entry sent in
    elim (Bool-cases (j == id)) [
      | inl q ↦
          let same_entry : entry ≡ h.entry_of = some-inj (rw q at h.found) in
          record {
            entry_of = next.0;
            found = rw q refl;
            request_eq = same_head.0 ∙ rw (sym same_entry) at h.request_eq;
            waits = same_head.1 ∙ rw (sym same_entry) at h.waits;
          }
      | inr q ↦
          above id j request next.0 (deliver_all send now m next.1).0
            (deliver-Held send now id request m next.1 (below id j request entry m h q)) q
    ]
