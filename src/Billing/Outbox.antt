-- ===== src/Billing/Outbox.antt =====
-- services/billing/outbox_relay.go, and the outbox of services/billing/db/postgres.go: events are
-- stored, claimed, published, and parked when they cannot be.
pub mod Accounting
pub mod Parking
pub mod Replay
pub mod Delivery
use thittam.Base.{
  ℕ, zero, suc, Bool, true, false, not, ◌&&◌, ◌||◌, Option, none, some, List, [], ◌∷◌, ◌++◌, take,
  ltb, leb, ◌==◌, ◌+◌, ◌-◌, ◌*◌, ◌/◌, ◌%◌, if◌then◌else◌,
}
use thittam.Base.Rows.{find_row, has_row, update_rows, keep_rows, order_by}
use thittam.Base.Text.{Text}
use thittam.Base.Time.{Time, after, within}
use thittam.Base.Action.{
  Action, Statement, Result, ok, err, World, ◌>>=◌, ◌>>◌, pure, raise, raise_if, attempt, map_error,
  modify, time_now, query, transaction, QueryError, after_call, unique_violation,
}

pub record OutboxEvent : Type 0 where
  pub id : ℕ
  pub subject : Text
  pub tenant_id : ℕ
  pub payload : Text
  pub created_at : Time
  pub sent_at : Option Time
  pub attempts : ℕ
  pub last_error : Option Text

pub record DeadEvent : Type 0 where
  pub id : ℕ
  pub subject : Text
  pub tenant_id : ℕ
  pub payload : Text
  pub created_at : Time
  pub attempts : ℕ
  pub last_error : Option Text
  pub died_at : Time

-- The tables event_outbox and event_outbox_dead, the identifiers of the events that the broker has
-- accepted, and the relay's lastPublishSuccess.
pub record Queue : Type 0 where
  pub outbox : List OutboxEvent
  pub dead : List DeadEvent
  pub delivered : List ℕ
  pub last_publish_success : Time

pub data OutboxError : Type 0 where
  event_not_found internal : OutboxError
  publish_failed : Text → OutboxError

abbrev pub Relay : Type 0 → Type 0
Relay A = Action Queue OutboxError A

abbrev pub is_null : Option Time → Bool
is_null none = true
is_null (some t) = false

abbrev pub is_unsent : OutboxEvent → Bool
is_unsent e = is_null e.sent_at

abbrev pub by_age : OutboxEvent → OutboxEvent → Bool
by_age d e = not (after d.created_at e.created_at)

unfoldable pub claimable : ℕ → List OutboxEvent → List OutboxEvent
claimable limit es = take limit (order_by by_age (keep_rows is_unsent es))

abbrev pub is_claimed : ℕ → List OutboxEvent → OutboxEvent → Bool
is_claimed limit es e = has_row (λ c. c.id == e.id) (claimable limit es)

abbrev pub tried : OutboxEvent → OutboxEvent
tried e = record e { attempts = suc e.attempts }

-- One relay claims at a time, so no row is locked.
unfoldable pub claim_unsent_outbox : ℕ → Statement Queue (List OutboxEvent)
claim_unsent_outbox limit now t = ok (
  keep_rows (is_claimed limit t.outbox) (update_rows (is_claimed limit t.outbox) tried t.outbox),
  record t { outbox = update_rows (is_claimed limit t.outbox) tried t.outbox },
)

abbrev pub is_event : ℕ → OutboxEvent → Bool
is_event id e = e.id == id

abbrev pub sent_row : Time → OutboxEvent → OutboxEvent
sent_row now e = record e { sent_at = some now }

unfoldable pub mark_outbox_sent : ℕ → Statement Queue (Unit {0})
mark_outbox_sent id now t =
    ok (tt, record t { outbox = update_rows (is_event id) (sent_row now) t.outbox })

abbrev pub failed_row : Text → OutboxEvent → OutboxEvent
failed_row message e = record e { last_error = some message }

unfoldable pub record_outbox_failure : ℕ → Text → Statement Queue (Unit {0})
record_outbox_failure id message now t =
    ok (tt, record t { outbox = update_rows (is_event id) (failed_row message) t.outbox })

abbrev pub is_before : Time → Option Time → Bool
is_before cutoff none = false
is_before cutoff (some t) = after cutoff t

abbrev pub sent_before : Time → OutboxEvent → Bool
sent_before cutoff e = is_before cutoff e.sent_at

unfoldable pub delete_sent_outbox_older_than : Time → Statement Queue (Unit {0})
delete_sent_outbox_older_than cutoff now t =
    ok (tt, record t { outbox = keep_rows (λ e. not (sent_before cutoff e)) t.outbox })

abbrev pub dead_of : Text → Time → OutboxEvent → DeadEvent
dead_of message now e = record {
  id = e.id;
  subject = e.subject;
  tenant_id = e.tenant_id;
  payload = e.payload;
  created_at = e.created_at;
  attempts = e.attempts;
  last_error = some message;
  died_at = now;
}

abbrev pub is_dead : ℕ → DeadEvent → Bool
is_dead id d = d.id == id

-- INSERT … SELECT … ON CONFLICT (id) DO NOTHING.
abbrev pub buried : Text → Time → Queue → Option OutboxEvent → Queue
buried message now t none = t
buried message now t (some e) =
    if has_row (is_dead e.id) t.dead
    then t
    else record t { dead = t.dead ++ dead_of message now e ∷ [] }

unfoldable pub insert_dead : ℕ → Text → Statement Queue (Unit {0})
insert_dead id message now t = ok (tt, buried message now t (find_row (is_event id) t.outbox))

unfoldable pub delete_outbox : ℕ → Statement Queue (Unit {0})
delete_outbox id now t = ok (tt, record t { outbox = keep_rows (λ e. not (e.id == id)) t.outbox })

unfoldable pub move_outbox_to_dead : ℕ → Text → Relay (Unit {0})
move_outbox_to_dead id message = transaction internal (do
  map_error (λ _. internal) (query (insert_dead id message))
  map_error (λ _. internal) (query (delete_outbox id)))

-- Publish is a call of the broker, which may fail.
unfoldable pub publish : (ℕ → Text) → OutboxEvent → Relay (Unit {0})
publish why e w =
    if w.env.fails w.tick then (err (publish_failed (why w.tick)), after_call w) else (
      ok tt,
      record (after_call w) { tables = record w.tables { delivered = e.id ∷ w.tables.delivered } },
    )

abbrev pub max_outbox_attempts : ℕ
max_outbox_attempts = 5

-- The number of published events, and the failures.
abbrev pub Tally : Type 0
Tally = ℕ × List (OutboxEvent × OutboxError)

abbrev pub published_at : Time → Queue → Queue
published_at now t = record t { last_publish_success = now }

-- What follows MarkOutboxSent.
unfoldable pub after_mark : Tally → Result OutboxError (Unit {0}) → Relay Tally
after_mark (published, failed) (err x) = pure (published, failed)
after_mark (published, failed) (ok u) = do
  now ← time_now
  modify (published_at now)
  pure (suc published, failed)

unfoldable pub after_publish : OutboxEvent → Tally → Result OutboxError (Unit {0}) → Relay Tally
after_publish e (published, failed) (err x) = pure (published, failed ++ (e, x) ∷ [])
after_publish e tally (ok u) = do
  marked ← attempt (map_error (λ _. internal) (query (mark_outbox_sent e.id)))
  after_mark tally marked

unfoldable pub publish_one : (ℕ → Text) → Tally → OutboxEvent → Relay Tally
publish_one why tally e = do sent ← attempt (publish why e); after_publish e tally sent

unfoldable pub publish_all : (ℕ → Text) → Tally → List OutboxEvent → Relay Tally
publish_all why tally [] = pure tally
publish_all why tally (e ∷ es) = do next ← publish_one why tally e; publish_all why next es

abbrev message_of : OutboxError → Text
message_of (publish_failed s) = s
message_of _ = []

-- Every error of moving or recording is logged and dropped.
unfoldable pub settle_failure : Bool → OutboxEvent → OutboxError → Relay (Unit {0})
settle_failure healthy e x =
    if healthy && leb max_outbox_attempts e.attempts
    then (do attempt {F = OutboxError} (move_outbox_to_dead e.id (message_of x)); pure tt)
    else (do
      attempt {F = OutboxError}
          (map_error (λ _. internal) (query (record_outbox_failure e.id (message_of x))))
      pure tt)

unfoldable pub settle_failures : Bool → List (OutboxEvent × OutboxError) → Relay (Unit {0})
settle_failures healthy [] = pure tt
settle_failures healthy ((e, x) ∷ fs) = do settle_failure healthy e x; settle_failures healthy fs

-- brokerHealthyWindow: five minutes.
abbrev broker_healthy_window : ℕ
broker_healthy_window = 300000000000

unfoldable pub last_success : Relay Time
last_success w = (ok w.tables.last_publish_success, w)

unfoldable pub process_batch : (ℕ → Text) → ℕ → Relay ℕ
process_batch why limit = do
  events ← map_error (λ _. internal) (query (claim_unsent_outbox limit))
  tally ← publish_all why (0, []) events
  now ← time_now
  last ← last_success
  settle_failures (ltb 0 tally.0 || within broker_healthy_window now last) tally.1
  pure tally.0

-- The clean-up of old rows in the loop of Run; its error is logged and dropped.
unfoldable pub clean_up : Time → Relay (Unit {0})
clean_up cutoff = do
  attempt {F = OutboxError}
      (map_error (λ _. internal) (query (delete_sent_outbox_older_than cutoff)))
  pure tt

abbrev pub rearmed : DeadEvent → OutboxEvent
rearmed d = record {
  id = d.id;
  subject = d.subject;
  tenant_id = d.tenant_id;
  payload = d.payload;
  created_at = d.created_at;
  sent_at = none;
  attempts = 0;
  last_error = none;
}

-- INSERT … SELECT from the dead events, with the number of rows affected.
abbrev pub reinserted : Queue → Option DeadEvent → Result QueryError (ℕ × Queue)
reinserted t none = ok (0, t)
reinserted t (some d) =
    if has_row (is_event d.id) t.outbox
    then err unique_violation
    else ok (1, record t { outbox = t.outbox ++ rearmed d ∷ [] })

unfoldable pub reinsert_outbox : ℕ → Statement Queue ℕ
reinsert_outbox id now t = reinserted t (find_row (is_dead id) t.dead)

unfoldable pub delete_dead : ℕ → Statement Queue (Unit {0})
delete_dead id now t = ok (tt, record t { dead = keep_rows (λ d. not (d.id == id)) t.dead })

unfoldable pub replay_dead_outbox : ℕ → Relay (Unit {0})
replay_dead_outbox id = transaction internal (do
  count ← map_error (λ _. internal) (query (reinsert_outbox id))
  raise_if (count == 0) event_not_found
  map_error (λ _. internal) (query (delete_dead id)))
