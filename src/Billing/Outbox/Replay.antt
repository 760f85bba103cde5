-- ===== src/Billing/Outbox/Replay.antt =====
-- Replaying a dead event loses none.
use thittam.Base.{
  ℕ, ◌≡◌, ◌∙◌, refl, true, false, not, ◌||◌, Option, none, some, List, [], ◌∷◌, ◌++◌, ◌==◌, ==_refl,
  eq_of_==, arith, Bool-cases, inl, inr,
}
use thittam.Base.Rows.{find_row, find_row-holds, has_row, keep_rows}
use thittam.Base.Action.{query}
use thittam.Base.Keeps.{
  Keeps, Keeps-query, Keeps-map_error, Keeps-transaction, Keeps-then, Leads, Leads-query,
  Leads-map_error, OnSuccess, OnSuccess-ok, OnSuccess-err, OnSuccess-if, OnSuccess-map, keeps_rules,
}
use thittam.Billing.Outbox.{
  DeadEvent, Queue, is_dead, rearmed, reinserted, reinsert_outbox, delete_dead, replay_dead_outbox,
}
use thittam.Billing.Outbox.Accounting.{is_pending, is_delivered, accounted, Accounted}
use thittam.Billing.Outbox.Parking.{or_right, has_row-append_one}

-- The event is accounted for, and not only as a dead one if it is `k`.
abbrev Live : ℕ → ℕ → Queue → Type 0
Live id k t =
    Accounted id t
    × ((k == id) ≡ true → (is_delivered id t || has_row (is_pending id) t.outbox) ≡ true)

not_dead :
    (id : ℕ) (ds : List DeadEvent)
    → find_row (is_dead id) ds ≡ none
    → has_row (is_dead id) ds ≡ false
unfolding find_row has_row
not_dead id [] h = refl
not_dead id (d ∷ ds) h = ground (arith, not_dead id ds)

none-Live :
    (id k : ℕ) (t : Queue)
    → find_row (is_dead k) t.dead ≡ none
    → Accounted id t
    → (k == id) ≡ true
    → (is_delivered id t || has_row (is_pending id) t.outbox) ≡ true
unfolding accounted
none-Live id k t missing h same =
    let absent = not_dead id t.dead (rw (eq_of_== k id same) at missing) in ground arith

pending_new : (id : ℕ) (d : DeadEvent) → d.id ≡ id → is_pending id (rearmed d) ≡ true
pending_new id d same = ground (arith, ==_refl id)

rearmed-Live :
    (id k : ℕ) (t : Queue) (d : DeadEvent)
    → d.id ≡ k
    → Accounted id t
    → Live id k (record t { outbox = t.outbox ++ rearmed d ∷ [] })
unfolding accounted
rearmed-Live id k t d here h = (
  rw (has_row-append_one (is_pending id) t.outbox (rearmed d)) (ground arith),
  λ same.
      rw (has_row-append_one (is_pending id) t.outbox (rearmed d))
        (or_right _ (or_right _ (pending_new id d (here ∙ eq_of_== k id same)))),
)

reinserted-Live :
    (id k : ℕ) (t : Queue) (o : Option DeadEvent)
    → find_row (is_dead k) t.dead ≡ o
    → Accounted id t
    → OnSuccess (Live id k) (reinserted t o)
reinserted-Live id k t none missing h = OnSuccess-ok _ _ (h, none-Live id k t missing h)
reinserted-Live id k t (some d) found h =
    let here = eq_of_== d.id k (find_row-holds (is_dead k) t.dead found) in
    OnSuccess-if _ _ _ (λ there. OnSuccess-err _)
      (λ free. OnSuccess-ok _ _ (rearmed-Live id k t d here h))

deleted-dead :
    (id k : ℕ) (ds : List DeadEvent)
    → (k == id) ≡ false
    → has_row (is_dead id) (keep_rows (λ d. not (d.id == k)) ds) ≡ has_row (is_dead id) ds
unfolding has_row keep_rows
deleted-dead id k [] h = refl
deleted-dead id k (d ∷ ds) h = ground (arith, deleted-dead id k ds)

deleted-Accounted :
    (id k : ℕ) (t : Queue)
    → Live id k t
    → Accounted id (record t { dead = keep_rows (λ d. not (d.id == k)) t.dead })
unfolding accounted
deleted-Accounted id k t (h, live) = elim (Bool-cases (k == id)) [
  | inl same ↦ let alive = live same in ground arith
  | inr other ↦ rw (deleted-dead id k t.dead other) h
]

delete_dead-Live : (id k : ℕ) → Keeps (Live id k) (query (delete_dead k))
unfolding delete_dead
delete_dead-Live id k = Keeps-query _ λ now t h. OnSuccess-ok _ _ (deleted-Accounted id k t h, h.1)

reinsert-Live : (id k : ℕ) → Leads (Accounted id) (Live id k) (query (reinsert_outbox k))
unfolding reinsert_outbox
reinsert-Live id k = Leads-query _ λ now t h. reinserted-Live id k t _ refl h

reinsert-Accounted : (id k : ℕ) → Keeps (Accounted id) (query (reinsert_outbox k))
unfolding reinsert_outbox
reinsert-Accounted id k =
    Keeps-query _ λ now t h. OnSuccess-map _ (λ u live. live.0) (reinserted-Live id k t _ refl h)

pub replay-Accounted : (id k : ℕ) → Keeps (Accounted id) (replay_dead_outbox k)
unfolding replay_dead_outbox
replay-Accounted id k = Keeps-transaction _ _ (
    Keeps-then {Q = Live id k} _ _ (Keeps-map_error _ _ (reinsert-Accounted id k))
      (Leads-map_error _ _ (reinsert-Live id k)) (λ t h. h.0)
      (λ count. search (keeps_rules, delete_dead-Live)))
