-- ===== src/Billing/Outbox/Delivery.antt =====
-- The relay loses no event.
use thittam.Base.{ℕ, ◌≡◌, Bool, true, ◌||◌, List, [], ◌∷◌, ◌==◌, arith, Bool-cases, inl, inr}
use thittam.Base.Rows.{has_row}
use thittam.Base.Text.{Text}
use thittam.Base.Time.{Time}
use thittam.Base.Action.{World, Result, ok, err, query}
use thittam.Base.Keeps.{
  Keeps, Keeps-query, Keeps-bind, Keeps-pure, Keeps-attempt, Keeps-map_error, Keeps-modify,
  Keeps-attempt_then, Leads, OnSuccess-ok, keeps_rules,
}
use thittam.Billing.Outbox.{
  OutboxEvent, Queue, OutboxError, mark_outbox_sent, publish, after_mark, after_publish,
  publish_one, published_at, publish_all, settle_failure, settle_failures, last_success,
  process_batch, clean_up, Tally,
}
use thittam.Billing.Outbox.Accounting.{
  is_delivered, accounted, Accounted, sent-pending, same_pending, without_pending, claim-Accounted,
  record-Accounted, clean-Accounted,
}
use thittam.Billing.Outbox.{replay_dead_outbox}
use thittam.Billing.Outbox.Replay.{replay-Accounted}
use thittam.Billing.Outbox.Parking.{move-Accounted}

-- The event is accounted for, and has been delivered if it is `k`.
abbrev Sent : ℕ → ℕ → Queue → Type 0
Sent id k t = Accounted id t × ((k == id) ≡ true → is_delivered id t ≡ true)

or_left : (a b : Bool) → a ≡ true → (a || b) ≡ true
or_left a b h = ground arith

mark-Sent : (id k : ℕ) → Keeps (Sent id k) (query (mark_outbox_sent k))
unfolding mark_outbox_sent
mark-Sent id k = Keeps-query _ λ now t (h, sent). OnSuccess-ok _ _ (
  elim (Bool-cases (k == id)) [
    | inl same ↦ without_pending id t _ (or_left _ _ (sent same))
    | inr other ↦ same_pending id t _ (sent-pending id k now t.outbox other) h
  ],
  sent,
)

settle-Accounted :
    (id : ℕ) (healthy : Bool) (e : OutboxEvent) (x : OutboxError)
    → Keeps (Accounted id) (settle_failure healthy e x)
unfolding settle_failure
settle-Accounted id healthy e x = search (keeps_rules, move-Accounted, record-Accounted) depth 9

settle_failures-Accounted :
    (id : ℕ) (healthy : Bool) (fs : List (OutboxEvent × OutboxError))
    → Keeps (Accounted id) (settle_failures healthy fs)
unfolding settle_failures
settle_failures-Accounted id healthy [] = search keeps_rules
settle_failures-Accounted id healthy ((e, x) ∷ fs) =
    Keeps-bind _ _ (settle-Accounted id healthy e x) λ _. settle_failures-Accounted id healthy fs

-- The queue after the broker has accepted an event.
abbrev accepted : OutboxEvent → Queue → Queue
accepted e t = record t { delivered = e.id ∷ t.delivered }

err-not_ok :
    {A : Type 0} {x : OutboxError} {a : A} → let r : Result OutboxError A = err x in r ≡ ok a → ⊥
err-not_ok h = cc

accepted-Sent :
    (id : ℕ) (e : OutboxEvent) (t : Queue) → Accounted id t → Sent id e.id (accepted e t)
unfolding accounted has_row
accepted-Sent id e t h = (ground arith, λ same. or_left _ _ same)

publish-Accounted :
    (id : ℕ) (why : ℕ → Text) (e : OutboxEvent) → Keeps (Accounted id) (publish why e)
unfolding publish
publish-Accounted id why e = record {
  apply = λ w h. elim (Bool-cases (w.env.fails w.tick)) [
    | inl fails ↦ rw fails h
    | inr works ↦ rw works ((accepted-Sent id e w.tables h).0)
  ];
}

publish-Leads :
    (id : ℕ) (why : ℕ → Text) (e : OutboxEvent)
    → Leads (Accounted id) (Sent id e.id) (publish why e)
unfolding publish
publish-Leads id why e = record {
  apply = λ w a h done. elim (Bool-cases (w.env.fails w.tick)) [
    | inl fails ↦ absurd (err-not_ok (rw fails at done))
    | inr works ↦ rw works (accepted-Sent id e w.tables h)
  ];
}

after_mark-Sent :
    (id k : ℕ) (tally : Tally) (r : Result OutboxError (Unit {0}))
    → Keeps (Sent id k) (after_mark tally r)
unfolding after_mark accounted
after_mark-Sent id k (published, failed) (err x) = search keeps_rules
after_mark-Sent id k (published, failed) (ok u) =
    Keeps-bind _ _ (search keeps_rules)
      λ now. Keeps-bind _ _ (Keeps-modify (published_at now) (λ t h. h)) λ _. Keeps-pure _

after_publish-Sent :
    (id : ℕ) (e : OutboxEvent) (tally : Tally) (u : Unit {0})
    → Keeps (Sent id e.id) (after_publish e tally (ok u))
unfolding after_publish
after_publish-Sent id e tally u =
    Keeps-bind _ _ (Keeps-attempt _ (Keeps-map_error _ _ (mark-Sent id e.id)))
      λ marked. after_mark-Sent id e.id tally marked

after_publish-Accounted :
    (id : ℕ) (e : OutboxEvent) (tally : Tally) (x : OutboxError)
    → Keeps (Accounted id) (after_publish e tally (err x))
unfolding after_publish
after_publish-Accounted id e (published, failed) x = search keeps_rules

publish_one-Accounted :
    (id : ℕ) (why : ℕ → Text) (tally : Tally) (e : OutboxEvent)
    → Keeps (Accounted id) (publish_one why tally e)
unfolding publish_one
publish_one-Accounted id why tally e =
    Keeps-attempt_then {Q = Sent id e.id} _ _ (publish-Accounted id why e) (publish-Leads id why e)
      (λ t h. h.0) (after_publish-Accounted id e tally) (after_publish-Sent id e tally)

publish_all-Accounted :
    (id : ℕ) (why : ℕ → Text) (tally : Tally) (es : List OutboxEvent)
    → Keeps (Accounted id) (publish_all why tally es)
unfolding publish_all
publish_all-Accounted id why tally [] = search keeps_rules
publish_all-Accounted id why tally (e ∷ es) =
    Keeps-bind _ _ (publish_one-Accounted id why tally e)
      λ next. publish_all-Accounted id why next es

last_success-Accounted : (id : ℕ) → Keeps (Accounted id) last_success
unfolding last_success
last_success-Accounted id = record { apply = λ w h. h }

process_batch-Accounted :
    (id : ℕ) (why : ℕ → Text) (limit : ℕ) → Keeps (Accounted id) (process_batch why limit)
unfolding process_batch
process_batch-Accounted id why limit =
    search
      (
        keeps_rules, claim-Accounted, publish_all-Accounted, last_success-Accounted,
        settle_failures-Accounted,
      )
      depth 9

clean_up-Accounted : (id : ℕ) (cutoff : Time) → Keeps (Accounted id) (clean_up cutoff)
unfolding clean_up
clean_up-Accounted id cutoff = search (keeps_rules, clean-Accounted)

-- What Run does at its ticks, and what an operator does with a dead event.
pub data RelayStep : Type 0 where
  batch : ℕ → RelayStep
  cleaning : Time → RelayStep
  replaying : ℕ → RelayStep

abbrev pub relay_step : (ℕ → Text) → RelayStep → World Queue → World Queue
relay_step why (batch limit) w = (process_batch why limit w).1
relay_step why (cleaning cutoff) w = (clean_up cutoff w).1
relay_step why (replaying k) w = (replay_dead_outbox k w).1

unfoldable pub relay_run : (ℕ → Text) → List RelayStep → World Queue → World Queue
relay_run why [] w = w
relay_run why (s ∷ ss) w = relay_run why ss (relay_step why s w)

relay_step-Accounted :
    (id : ℕ) (why : ℕ → Text) (s : RelayStep) (w : World Queue)
    → Accounted id w.tables
    → Accounted id (relay_step why s w).tables
relay_step-Accounted id why (batch limit) w h = (process_batch-Accounted id why limit).apply w h
relay_step-Accounted id why (cleaning cutoff) w h = (clean_up-Accounted id cutoff).apply w h
relay_step-Accounted id why (replaying k) w h = (replay-Accounted id k).apply w h

-- No event of the outbox is lost: an event that the broker has accepted, or that waits in the
-- outbox unsent, or that is parked among the dead events, is still one of these after any
-- sequence of batches of the relay, clean-ups of old rows and replays of dead events, whatever
-- calls of the broker and of the database fail.
pub relay_run-Accounted :
    (id : ℕ) (why : ℕ → Text) (ss : List RelayStep) (w : World Queue)
    → Accounted id w.tables
    → Accounted id (relay_run why ss w).tables
unfolding relay_run
relay_run-Accounted id why [] w h = h
relay_run-Accounted id why (s ∷ ss) w h =
    relay_run-Accounted id why ss _ (relay_step-Accounted id why s w h)
