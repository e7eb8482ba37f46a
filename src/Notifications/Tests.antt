-- ===== src/Notifications/Tests.antt =====
-- Four items of the queue, one of them not queued, and the theorem at them.
use core_swift_crm.Prelude.{
  ℕ, ◌≡◌, refl, Bool, true, false, not, ◌&&◌, ◌==◌, Option, none, some, [], ◌∷◌, All, map,
  if◌then◌else◌,
}
use core_swift_crm.Prelude.Tables.{select, update}
use core_swift_crm.Text.{Text, codes, text_eq, is_whitespace}
use core_swift_crm.Text.Trim.{trim, trim_start, trim_end}
use core_swift_crm.Notifications.{
  QueueItem, Db, World, DeliveryOutcome, Status, queued, sending, sent, failed, batch, mark,
  mark_sending, mark_sent, mark_failed, insert_notification, write_in_app, process_in_app,
  process_delivery, process_item, process_each, process_notification_queue,
}
use core_swift_crm.Notifications.Outcomes.{listed, IsDone}
use core_swift_crm.Notifications.Batch.{IsOldestQueued}
use core_swift_crm.Notifications.Settled.{process_notification_queue-IsSettled}
use core_swift_crm.Notifications.Title.{resolve, first_chars}

abbrev parse_uuid : Text → Option ℕ
parse_uuid s = if text_eq s (codes "seven") then some 7 else none

abbrev bounce : QueueItem → Text → Text → Text → DeliveryOutcome
bounce q channel to_address body = record { ok = false; error = some (codes "bounced") }

abbrev is_failed : Status → Bool
is_failed failed = true
is_failed _ = false

abbrev world : World
world = record {
  now = 100;
  parse_uuid = parse_uuid;
  bad_uuid = λ s. codes "invalid character";
  refuses = λ n. none;
  updates = λ id status. true;
  deliver = bounce;
}

abbrev queue_row : ℕ → ℕ → Text → Text → Status → QueueItem
queue_row id created_at channel to_address status = record {
  id = id;
  tenant_id = some 5;
  channel = some channel;
  to_address = some to_address;
  subject = none;
  body = some (codes "Hello");
  title = some (codes " ");
  created_at = created_at;
  status = status;
  error_message = none;
  sent_at = none;
}

abbrev db : Db
db = record {
  queue =
      queue_row 1 30 (codes "email") (codes "a@b.c") queued
      ∷ queue_row 2 20 (codes "in_app") (codes "seven") queued
      ∷ record (queue_row 3 10 (codes "sms") (codes "1") queued) { tenant_id = none; body = none }
      ∷ queue_row 4 5 (codes "email") (codes "a@b.c") sending
      ∷ [];
  notifications = [];
}

run : Unit {0}
unfolding mark mark_sending mark_sent mark_failed insert_notification write_in_app process_in_app
    process_delivery process_item process_each process_notification_queue batch resolve first_chars
    trim trim_start trim_end is_whitespace text_eq select update
run = tt

oldest_first : map (λ q. q.id) (batch db) ≡ 3 ∷ 2 ∷ 1 ∷ []
unfolding run
oldest_first = refl

statuses :
    map (λ q. q.status) (process_notification_queue world db).queue
    ≡ failed ∷ sent ∷ failed ∷ sending ∷ []
unfolding run
statuses = refl

reasons :
    map (λ q. q.error_message) (process_notification_queue world db).queue
    ≡ some (codes "bounced") ∷ none ∷ some (codes "undeliverable: NULL tenant_id, body") ∷ none ∷ []
unfolding run
reasons = refl

titled :
    (process_notification_queue world db).notifications
    ≡ record { tenant_id = 5; user_id = 7; title = codes "Hello"; message = codes "Hello" } ∷ []
unfolding run
titled = refl

-- The failed delivery of item 1 cannot be recorded.
unrecorded :
    map
      (λ q. q.status)
      (process_notification_queue
        (record world { updates = λ id status. not (id == 1 && is_failed status) })
        db).queue
    ≡ sending ∷ sent ∷ failed ∷ sending ∷ []
unfolding run
unrecorded = refl

process_notification_queue-IsSettled_example :
    IsOldestQueued db.queue (batch db)
    × All (λ q. IsDone world q.id (process_notification_queue world db).queue) (batch db)
    × (map (λ q. q.id) (process_notification_queue world db).queue ≡ 1 ∷ 2 ∷ 3 ∷ 4 ∷ [])
    × (select (λ q. not (listed (batch db) q)) (process_notification_queue world db).queue
        ≡ select (λ q. not (listed (batch db) q)) db.queue)
process_notification_queue-IsSettled_example = process_notification_queue-IsSettled world db
