-- ===== src/Billing/Outbox/Parking.antt =====
-- Parking an event among the dead ones loses none.
use thittam.Base.{
  ℕ, ◌≡◌, refl, Bool, true, false, ◌||◌, Option, none, some, List, [], ◌∷◌, ◌++◌, ◌==◌, ==_refl,
  eq_of_==, arith, Bool-cases, inl, inr,
}
use thittam.Base.Rows.{find_row, find_row-holds, has_row}
use thittam.Base.Text.{Text}
use thittam.Base.Time.{Time}
use thittam.Base.Action.{query}
use thittam.Base.Keeps.{
  Keeps, Keeps-query, Keeps-map_error, Keeps-transaction, Keeps-then, Leads, Leads-query,
  Leads-map_error, OnSuccess-ok,
}
use thittam.Billing.Outbox.{
  OutboxEvent, Queue, is_event, is_dead, dead_of, buried, insert_dead, delete_outbox,
  move_outbox_to_dead,
}
use thittam.Billing.Outbox.Accounting.{
  is_pending, is_delivered, accounted, Accounted, deleted-pending, same_pending, without_pending,
}

-- The event is accounted for, and has been delivered or parked if it is `k`.
abbrev Parked : ℕ → ℕ → Queue → Type 0
Parked id k t =
    Accounted id t × ((k == id) ≡ true → (is_delivered id t || has_row (is_dead id) t.dead) ≡ true)

pub or_right : (a : Bool) {b : Bool} → b ≡ true → (a || b) ≡ true
or_right a h = ground arith

delete-Parked : (id k : ℕ) → Keeps (Parked id k) (query (delete_outbox k))
unfolding delete_outbox
delete-Parked id k = Keeps-query _ λ now t (h, parked). OnSuccess-ok _ _ (
  elim (Bool-cases (k == id)) [
    | inl same ↦ without_pending id t _ (parked same)
    | inr other ↦ same_pending id t _ (deleted-pending id k t.outbox other) h
  ],
  parked,
)

not_pending :
    (id : ℕ) (es : List OutboxEvent)
    → find_row (is_event id) es ≡ none
    → has_row (is_pending id) es ≡ false
unfolding find_row has_row
not_pending id [] h = refl
not_pending id (e ∷ es) h = ground (arith, not_pending id es)

pub has_row-append_one :
    {A : Type 0} (p : A → Bool) (xs : List A) (y : A)
    → has_row p (xs ++ y ∷ []) ≡ (has_row p xs || p y)
unfolding has_row
has_row-append_one p [] y = ground arith
has_row-append_one p (x ∷ xs) y = ground (arith, has_row-append_one p xs y)

none-Parked :
    (id k : ℕ) (t : Queue)
    → find_row (is_event k) t.outbox ≡ none
    → Accounted id t
    → (k == id) ≡ true
    → (is_delivered id t || has_row (is_dead id) t.dead) ≡ true
unfolding accounted
none-Parked id k t missing h same =
    let absent = not_pending id t.outbox (rw (eq_of_== k id same) at missing) in ground arith

-- The event is in the table of dead events after the insertion, as it was or as it is copied.
buried-found :
    (k : ℕ) (message : Text) (now : Time) (t : Queue) (e : OutboxEvent)
    → e.id ≡ k
    → has_row (is_dead k) (buried message now t (some e)).dead ≡ true
buried-found k message now t e same = elim (Bool-cases (has_row (is_dead e.id) t.dead)) [
  | inl there ↦ rw there (rw same at there)
  | inr absent ↦ rw absent (
      rw (has_row-append_one (is_dead k) t.dead (dead_of message now e), same)
        (or_right _ (==_refl k)))
]

buried-keeps :
    (id : ℕ) (message : Text) (now : Time) (t : Queue) (e : OutboxEvent)
    → Accounted id t
    → Accounted id (buried message now t (some e))
unfolding accounted
buried-keeps id message now t e h = elim (Bool-cases (has_row (is_dead e.id) t.dead)) [
  | inl there ↦ rw there h
  | inr absent ↦
      rw (absent, has_row-append_one (is_dead id) t.dead (dead_of message now e)) (ground arith)
]

buried-Parked :
    (id k : ℕ) (message : Text) (now : Time) (t : Queue) (o : Option OutboxEvent)
    → find_row (is_event k) t.outbox ≡ o
    → Accounted id t
    → Parked id k (buried message now t o)
buried-Parked id k message now t none missing h = (h, none-Parked id k t missing h)
buried-Parked id k message now t (some e) found h =
    let here = eq_of_== e.id k (find_row-holds (is_event k) t.outbox found) in
    let dead = buried-found k message now t e here in
    (buried-keeps id message now t e h, λ same. or_right _ (rw (eq_of_== k id same) at dead))

insert-Leads :
    (id k : ℕ) (message : Text) → Leads (Accounted id) (Parked id k) (query (insert_dead k message))
unfolding insert_dead
insert-Leads id k message =
    Leads-query _ λ now t h. OnSuccess-ok _ _ (buried-Parked id k message now t _ refl h)

insert-Accounted :
    (id k : ℕ) (message : Text) → Keeps (Accounted id) (query (insert_dead k message))
unfolding insert_dead
insert-Accounted id k message =
    Keeps-query _ λ now t h. OnSuccess-ok _ _ ((buried-Parked id k message now t _ refl h).0)

pub move-Accounted :
    (id k : ℕ) (message : Text) → Keeps (Accounted id) (move_outbox_to_dead k message)
unfolding move_outbox_to_dead
move-Accounted id k message = Keeps-transaction _ _ (
    Keeps-then {Q = Parked id k} _ _ (Keeps-map_error _ _ (insert-Accounted id k message))
      (Leads-map_error _ _ (insert-Leads id k message)) (λ t h. h.0)
      (λ _. Keeps-map_error _ _ (delete-Parked id k)))
