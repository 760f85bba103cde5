-- ===== src/Billing/Outbox/Accounting.antt =====
-- Which events are accounted for, and the statements that only change or remove rows.
use thittam.Base.{ℕ, ◌≡◌, refl, Bool, true, false, not, ◌&&◌, ◌||◌, List, [], ◌∷◌, ◌==◌, arith}
use thittam.Base.Rows.{has_row, update_rows, keep_rows}
use thittam.Base.Text.{Text}
use thittam.Base.Time.{Time}
use thittam.Base.Action.{query}
use thittam.Base.Keeps.{Keeps, Keeps-query, OnSuccess-ok}
use thittam.Billing.Outbox.{
  OutboxEvent, Queue, is_unsent, is_event, is_dead, tried, sent_row, failed_row, sent_before,
  is_claimed, claim_unsent_outbox, record_outbox_failure, delete_sent_outbox_older_than,
}

abbrev pub is_pending : ℕ → OutboxEvent → Bool
is_pending id e = e.id == id && is_unsent e

abbrev pub is_delivered : ℕ → Queue → Bool
is_delivered id t = has_row (λ d. d == id) t.delivered

-- The broker has accepted the event, or it waits to be sent, or it is parked.
unfoldable pub accounted : ℕ → Queue → Bool
accounted id t =
    is_delivered id t || (has_row (is_pending id) t.outbox || has_row (is_dead id) t.dead)

abbrev pub Accounted : ℕ → Queue → Type 0
Accounted id t = accounted id t ≡ true

tried-pending :
    (id : ℕ) (p : OutboxEvent → Bool) (es : List OutboxEvent)
    → has_row (is_pending id) (update_rows p tried es) ≡ has_row (is_pending id) es
unfolding has_row update_rows
tried-pending id p [] = refl
tried-pending id p (e ∷ es) = ground (arith, tried-pending id p es)

failed-pending :
    (id : ℕ) (p : OutboxEvent → Bool) (message : Text) (es : List OutboxEvent)
    → has_row (is_pending id) (update_rows p (failed_row message) es) ≡ has_row (is_pending id) es
unfolding has_row update_rows
failed-pending id p message [] = refl
failed-pending id p message (e ∷ es) = ground (arith, failed-pending id p message es)

pub sent-pending :
    (id k : ℕ) (now : Time) (es : List OutboxEvent)
    → (k == id) ≡ false
    → has_row (is_pending id) (update_rows (is_event k) (sent_row now) es)
      ≡ has_row (is_pending id) es
unfolding has_row update_rows
sent-pending id k now [] h = refl
sent-pending id k now (e ∷ es) h = ground (arith, sent-pending id k now es)

pub deleted-pending :
    (id k : ℕ) (es : List OutboxEvent)
    → (k == id) ≡ false
    → has_row (is_pending id) (keep_rows (λ e. not (e.id == k)) es) ≡ has_row (is_pending id) es
unfolding has_row keep_rows
deleted-pending id k [] h = refl
deleted-pending id k (e ∷ es) h = ground (arith, deleted-pending id k es)

cleaned-pending :
    (id : ℕ) (cutoff : Time) (es : List OutboxEvent)
    → has_row (is_pending id) (keep_rows (λ e. not (sent_before cutoff e)) es)
      ≡ has_row (is_pending id) es
unfolding has_row keep_rows
cleaned-pending id cutoff [] = refl
cleaned-pending id cutoff (e ∷ es) = ground (arith, cleaned-pending id cutoff es)

-- What the rest of the queue says of an event, apart from the outbox.
module _ (id : ℕ) (t : Queue) (es : List OutboxEvent) where
  pub same_pending :
      has_row (is_pending id) es ≡ has_row (is_pending id) t.outbox
      → Accounted id t
      → Accounted id (record t { outbox = es })
  unfolding accounted
  same_pending e h = rw e h

  pub without_pending :
      is_delivered id t || has_row (is_dead id) t.dead ≡ true
      → Accounted id (record t { outbox = es })
  unfolding accounted
  without_pending h = ground arith

pub claim-Accounted : (id limit : ℕ) → Keeps (Accounted id) (query (claim_unsent_outbox limit))
unfolding claim_unsent_outbox
claim-Accounted id limit = Keeps-query _ λ now t h.
    OnSuccess-ok _ _ (same_pending id t _ (tried-pending id (is_claimed limit t.outbox) t.outbox) h)

pub record-Accounted :
    (id k : ℕ) (message : Text) → Keeps (Accounted id) (query (record_outbox_failure k message))
unfolding record_outbox_failure
record-Accounted id k message = Keeps-query _ λ now t h.
    OnSuccess-ok _ _ (same_pending id t _ (failed-pending id (is_event k) message t.outbox) h)

pub clean-Accounted :
    (id : ℕ) (cutoff : Time) → Keeps (Accounted id) (query (delete_sent_outbox_older_than cutoff))
unfolding delete_sent_outbox_older_than
clean-Accounted id cutoff =
    Keeps-query _
      λ now t h. OnSuccess-ok _ _ (same_pending id t _ (cleaned-pending id cutoff t.outbox) h)
