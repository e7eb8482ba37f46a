-- ===== src/Notifications.antt =====
-- notifications/title.rs, and process_notification_queue of worker.rs: the queue of notifications,
-- its order, its states and the notifications written. Times are numbers, and `created_at` is set.
-- A read succeeds. Which of the updates of an item take effect is a parameter, since the code goes on
-- when one fails, and so is what a provider of mails or messages answers.
pub mod Batch
pub mod Outcomes
pub mod Settled
pub mod Title
mod Tests
use core_swift_crm.Prelude.{
  ℕ, suc, zero, String, Bool, true, false, not, Option, none, some, List, [], ◌∷◌, ◌++◌, ◌==◌, ltb,
  leb, if◌then◌else◌, length, Result, ok, err,
}
use core_swift_crm.Prelude.Tables.{select, update}
use core_swift_crm.Text.{Text, codes, text_eq}
use Title.{resolve}

pub data Status : Type 0 where
  queued sending sent failed : Status

abbrev pub is_queued : Status → Bool
is_queued queued = true
is_queued _ = false

pub record QueueItem : Type 0 where
  pub id : ℕ
  pub tenant_id : Option ℕ
  pub channel : Option Text
  pub to_address : Option Text
  pub subject : Option Text
  pub body : Option Text
  pub title : Option Text
  pub created_at : ℕ
  pub status : Status
  pub error_message : Option Text
  pub sent_at : Option ℕ

pub record Notification : Type 0 where
  pub tenant_id : ℕ
  pub user_id : ℕ
  pub title : Text
  pub message : Text

pub record Db : Type 0 where
  pub queue : List QueueItem
  pub notifications : List Notification

-- The fields that the queue reads.
pub record DeliveryOutcome : Type 0 where
  pub ok : Bool
  pub error : Option Text

-- `deliver` is what the configured provider answers for an item, a channel, an address and a body;
-- `refuses` why a foreign key refuses a notification; `bad_uuid` what the parser's error prints;
-- `updates` whether the `UPDATE` of an item to a status takes effect.
pub record World : Type 0 where
  pub now : ℕ
  pub parse_uuid : Text → Option ℕ
  pub bad_uuid : Text → Text
  pub refuses : Notification → Option Text
  pub updates : ℕ → Status → Bool
  pub deliver : QueueItem → Text → Text → Text → DeliveryOutcome

abbrev pub insert_by_time : QueueItem → List QueueItem → List QueueItem
insert_by_time q [] = q ∷ []
insert_by_time q (x ∷ rows) =
    let rest = insert_by_time q rows in
    if leb q.created_at x.created_at then q ∷ x ∷ rows else x ∷ rest

-- `ORDER BY created_at ASC`
abbrev pub by_time : List QueueItem → List QueueItem
by_time [] = []
by_time (q ∷ rows) = insert_by_time q (by_time rows)

abbrev pub take {ℓ} : {A : Type ℓ} → ℕ → List A → List A
take zero xs = []
take (suc n) [] = []
take (suc n) (x ∷ xs) = x ∷ take n xs

-- The items of one run: the ten oldest that are queued.
unfoldable pub batch : Db → List QueueItem
batch db = take 10 (by_time (select (λ q. is_queued q.status) db.queue))

abbrev pub set_item : ℕ → (QueueItem → QueueItem) → Db → Db
set_item id f db = record db { queue = update (λ q. q.id == id) f db.queue }

-- An `UPDATE` of an item to a status. A failure is dropped, or only logged.
unfoldable pub mark : World → ℕ → Status → (QueueItem → QueueItem) → Db → Db
mark w id status f db = if w.updates id status then set_item id f db else db

unfoldable pub mark_sending : World → ℕ → Db → Db
unfolding mark
mark_sending w id = mark w id sending (λ q. record q { status = sending })

unfoldable pub mark_sent : World → ℕ → Db → Db
unfolding mark
mark_sent w id = mark w id sent (λ q. record q { status = sent; sent_at = some w.now })

unfoldable pub mark_failed : World → Text → ℕ → Db → Db
unfolding mark
mark_failed w why id =
    mark w id failed (λ q. record q { status = failed; error_message = some why })

-- The `let … else` on the four columns that may be NULL.
abbrev pub addressed :
    Option ℕ → Option Text → Option Text → Option Text → Option (ℕ × Text × Text × Text)
addressed (some tenant_id) (some channel) (some to_address) (some body) =
    some (tenant_id, channel, to_address, body)
addressed _ _ _ _ = none

abbrev named {ℓ} : {A : Type ℓ} → String → Option A → List Text → List Text
named name none rest = codes name ∷ rest
named name (some a) rest = rest

-- `.join(", ")`
abbrev pub join : List Text → Text
join [] = []
join (s ∷ []) = s
join (s ∷ t ∷ rest) = s ++ codes ", " ++ join (t ∷ rest)

abbrev pub missing : QueueItem → Text
missing q = join (
    named "tenant_id" q.tenant_id
      (named "channel" q.channel (named "to_address" q.to_address (named "body" q.body []))))

abbrev title_max_chars : ℕ
title_max_chars = 255

-- The `INSERT`: the column `title` holds 255 characters.
unfoldable pub insert_notification : World → Notification → Db → Result Db Text
insert_notification w n db =
    if ltb title_max_chars (length n.title)
    then err (codes "value too long for type character varying(255)")
    else elim (w.refuses n) [
      | some why ↦ err why
      | none ↦ ok (record db { notifications = db.notifications ++ n ∷ [] })
    ]

module _ (w : World) where
  unfoldable pub write_in_app : QueueItem → ℕ → Text → Text → Db → Result Db Text
  unfolding insert_notification resolve
  write_in_app q tenant_id to_address body db = elim (w.parse_uuid to_address) [
    | none ↦ err (codes "to_address is not a user id: " ++ w.bad_uuid to_address)
    | some user_id ↦
        insert_notification w
          (record {
            tenant_id = tenant_id;
            user_id = user_id;
            title = resolve q.title q.subject body;
            message = body;
          })
          db
  ]

  unfoldable pub process_in_app : QueueItem → ℕ → Text → Text → Db → Db
  unfolding write_in_app mark_sent mark_failed
  process_in_app q tenant_id to_address body db =
      elim (write_in_app q tenant_id to_address body db) [
        | ok written ↦ mark_sent w q.id written
        | err why ↦ mark_failed w (codes "in_app notification not written: " ++ why) q.id db
      ]

  abbrev unwrap_or : Option Text → Text → Text
  unwrap_or none d = d
  unwrap_or (some a) d = a

  unfoldable pub process_delivery : QueueItem → Text → Text → Text → Db → Db
  unfolding mark_sent mark_failed
  process_delivery q channel to_address body db =
      let outcome = w.deliver q channel to_address body in
      if outcome.ok
      then mark_sent w q.id db
      else mark_failed w (unwrap_or outcome.error (codes "Unknown error")) q.id db

  abbrev in_app : Text
  in_app = codes "in_app"

  -- One round of the loop.
  unfoldable pub process_item : QueueItem → Db → Db
  unfolding process_in_app process_delivery mark_sending mark_failed
  process_item q db = elim (addressed q.tenant_id q.channel q.to_address q.body) [
    | none ↦ mark_failed w (codes "undeliverable: NULL " ++ missing q) q.id db
    | some (tenant_id, channel, to_address, body) ↦
        if text_eq channel in_app
        then process_in_app q tenant_id to_address body (mark_sending w q.id db)
        else process_delivery q channel to_address body (mark_sending w q.id db)
  ]

  unfoldable pub process_each : List QueueItem → Db → Db
  unfolding process_item
  process_each [] db = db
  process_each (q ∷ items) db = process_each items (process_item q db)

  unfoldable pub process_notification_queue : Db → Db
  unfolding process_each batch
  process_notification_queue db = process_each (batch db) db
