-- ===== src/Billing/Tests.antt =====
-- A run of the relay on a small outbox, and the theorem on it.
pub mod Plans
use thittam.Base.{ℕ, ◌≡◌, refl, ltb, List, [], ◌∷◌, none, ◌&&◌}
use thittam.Base.Rows.{find_row, has_row, update_rows, keep_rows, order_by}
use thittam.Base.Text.{Text, text}
use thittam.Base.Time.{Time, nanoseconds}
use thittam.Base.Action.{World, ◌>>=◌}
use thittam.Billing.Outbox.{
  OutboxEvent, Queue, claim_unsent_outbox, claimable, mark_outbox_sent, record_outbox_failure,
  insert_dead, delete_outbox, move_outbox_to_dead, publish, publish_one, publish_all, after_publish,
  after_mark, settle_failure, settle_failures, last_success, process_batch, reinsert_outbox,
  delete_dead, replay_dead_outbox,
}
use thittam.Billing.Outbox.Accounting.{accounted, Accounted}
use thittam.Billing.Outbox.Delivery.{
  RelayStep, batch, cleaning, replaying, relay_run, relay_run-Accounted,
}

abbrev start : Time
start = record { month = 24301; offset = 0 }

abbrev event : ℕ → ℕ → OutboxEvent
event id attempts = record {
  id = id;
  subject = text "subscription.suspended";
  tenant_id = 7;
  payload = [];
  created_at = start;
  sent_at = none;
  attempts = attempts;
  last_error = none;
}

-- Event 1 is new, and event 2 has failed four times.
abbrev queue : Queue
queue = record {
  outbox = event 1 0 ∷ event 2 4 ∷ [];
  dead = [];
  delivered = [];
  last_publish_success = record { month = 12; offset = 0 };
}

abbrev why : ℕ → Text
why n = text "nats: timeout"

-- Call 4 is the one of the broker on event 2, and it fails.
abbrev world : World Queue
world = record {
  env = record {
    uuid = λ n. n;
    time = λ n. record { month = 24301; offset = n };
    fails = λ n. ltb 3 n && ltb n 5;
  };
  tick = 0;
  tables = queue;
}

abbrev outbox_ids : List OutboxEvent → List ℕ
outbox_ids [] = []
outbox_ids (e ∷ es) = e.id ∷ outbox_ids es

unfoldable running : List RelayStep → World Queue
unfolding relay_run process_batch claim_unsent_outbox claimable mark_outbox_sent
    record_outbox_failure insert_dead delete_outbox move_outbox_to_dead publish publish_one
    publish_all after_publish after_mark settle_failure settle_failures last_success reinsert_outbox
    delete_dead replay_dead_outbox find_row has_row update_rows keep_rows order_by nanoseconds ◌>>=◌
running steps = relay_run why steps world

-- Event 1 is delivered; event 2 is parked at its fifth failure.
one_batch :
    ((running (batch 100 ∷ [])).tables.delivered ≡ 1 ∷ [])
    × (outbox_ids (running (batch 100 ∷ [])).tables.outbox ≡ 1 ∷ [])
unfolding running
one_batch = (refl, refl)

abbrev steps : List RelayStep
steps = batch 100 ∷ replaying 2 ∷ batch 100 ∷ cleaning start ∷ []

waiting : Accounted 2 queue
unfolding accounted has_row
waiting = refl

relay_run-Accounted_example : Accounted 2 (relay_run why steps world).tables
relay_run-Accounted_example = relay_run-Accounted 2 why steps world waiting
