-- ===== src/Notifications/Outcomes.antt =====
-- What one round of the loop does to the rows of the queue.
use core_swift_crm.Prelude.{
  ℕ, ◌≡◌, ◌≢◌, refl, ◌∙◌, Bool, false, ◌⊎◌, inl, inr, some, List, [], ◌∷◌, arith, ◌==◌, ==_iff, All,
  any, map, Bool-cases, Option-cases, Result-cases, ok, if◌then◌else◌,
}
use core_swift_crm.Prelude.Tables.{select, update}
use core_swift_crm.Text.{Text, codes, text_eq}
use core_swift_crm.Notifications.{
  QueueItem, Db, World, Status, sending, sent, failed, mark, mark_sending, mark_sent, mark_failed,
  process_item, process_in_app, process_delivery, write_in_app, addressed, insert_notification,
}

-- The item was delivered, or the reason for which it was not is recorded.
abbrev pub IsSettled : QueueItem → Type 0
IsSettled q =
    ((q.status ≡ sent) × ((t : ℕ) × (q.sent_at ≡ some t)))
    ⊎ ((q.status ≡ failed) × ((why : Text) × (q.error_message ≡ some why)))

abbrev pub listed : List QueueItem → QueueItem → Bool
listed items q = any (λ x. x.id == q.id) items

abbrev pub SettledAt : ℕ → List QueueItem → Type 0
SettledAt id queue = All (λ x. x.id ≡ id → IsSettled x) queue

-- The rows of the item are settled, or an update of the item failed.
abbrev pub IsDone : World → ℕ → List QueueItem → Type 0
IsDone w id queue = SettledAt id queue ⊎ ((s : Status) × (w.updates id s ≡ false))

-- Only rows of one id are changed, and they keep it.
pub data IsTouched (id : ℕ) (before : List QueueItem) : List QueueItem → Type 0 where
  untouched : IsTouched id before before
  touch :
      (f : QueueItem → QueueItem) {after : List QueueItem}
      → ((q : QueueItem) → (f q).id ≡ q.id)
      → IsTouched id before after
      → IsTouched id before (update (λ q. q.id == id) f after)

module _ (id : ℕ) (f : QueueItem → QueueItem) (keeps : (q : QueueItem) → (f q).id ≡ q.id) where
  -- An update of the rows of one id leaves the rows of all other ids alone.
  update-others :
      (p : QueueItem → Bool) (queue : List QueueItem)
      → ((q : QueueItem) → q.id ≡ id → p q ≡ false)
      → ((q : QueueItem) → p (f q) ≡ p q)
      → select p (update (λ q. q.id == id) f queue) ≡ select p queue
  unfolding select update
  update-others p [] out same = refl
  update-others p (q ∷ queue) out same = elim (Bool-cases (q.id == id)) [
    | inl here ↦
        let gone = out q ((==_iff q.id id).0 here) in
        let gone' = same q in
        let rest = update-others p queue out same in ground (arith, here, gone, gone', rest)
    | inr away ↦ let rest = update-others p queue out same in ground (arith, away, rest)
  ]

  update-ids :
      (queue : List QueueItem)
      → map (λ q. q.id) (update (λ q. q.id == id) f queue) ≡ map (λ q. q.id) queue
  unfolding update
  update-ids [] = refl
  update-ids (q ∷ queue) = ground (arith, keeps q, update-ids queue)

  update-settles :
      (queue : List QueueItem)
      → ((q : QueueItem) → IsSettled (f q))
      → SettledAt id (update (λ q. q.id == id) f queue)
  unfolding update
  update-settles [] settles = tt
  update-settles (q ∷ queue) settles = (here, update-settles queue settles)
    where
      here : (if q.id == id then f q else q).id ≡ id → IsSettled (if q.id == id then f q else q)
      here e = elim (Bool-cases (q.id == id)) [
        | inl same ↦ rw same (settles q)
        | inr other ↦ absurd (ground (arith, other, e))
      ]

  update-SettledAt :
      (id' : ℕ) (queue : List QueueItem)
      → id' ≢ id
      → SettledAt id' queue
      → SettledAt id' (update (λ q. q.id == id) f queue)
  unfolding update
  update-SettledAt id' [] other h = tt
  update-SettledAt id' (q ∷ queue) other h = (here, update-SettledAt id' queue other h.1)
    where
      here : (if q.id == id then f q else q).id ≡ id' → IsSettled (if q.id == id then f q else q)
      here e = elim (Bool-cases (q.id == id)) [
        | inl same ↦ let kept = keeps q in absurd (other (ground (arith, same, e, kept)))
        | inr away ↦ rw away (h.0 (ground (arith, away, e)))
      ]

module _ (id : ℕ) (before : List QueueItem) where
  -- A selection by the id that leaves this id out is not changed.
  pub touched-others :
      (after : List QueueItem)
      → IsTouched id before after
      → (p : QueueItem → Bool) → ((q : QueueItem) → q.id ≡ id → p q ≡ false)
      → ((q r : QueueItem) → q.id ≡ r.id → p q ≡ p r)
      → select p after ≡ select p before
  touched-others after untouched p out by_id = refl
  touched-others after (touch f {after = a} keeps t) p out by_id =
      update-others id f keeps p a out (λ q. by_id (f q) q (keeps q))
      ∙ touched-others a t p out by_id

  pub touched-ids :
      (after : List QueueItem)
      → IsTouched id before after
      → map (λ q. q.id) after ≡ map (λ q. q.id) before
  touched-ids after untouched = refl
  touched-ids after (touch f {after = a} keeps t) = update-ids id f keeps a ∙ touched-ids a t

  pub touched-SettledAt :
      (after : List QueueItem)
      → IsTouched id before after
      → (id' : ℕ) → id' ≢ id
      → SettledAt id' before
      → SettledAt id' after
  touched-SettledAt after untouched id' other h = h
  touched-SettledAt after (touch f {after = a} keeps t) id' other h =
      update-SettledAt id f keeps id' a other (touched-SettledAt a t id' other h)

module _ (w : World) (id : ℕ) (s : Status) (f : QueueItem → QueueItem)
    (keeps : (q : QueueItem) → (f q).id ≡ q.id) (db : Db) where
  mark-IsTouched :
      (before : List QueueItem)
      → IsTouched id before db.queue
      → IsTouched id before (mark w id s f db).queue
  unfolding mark
  mark-IsTouched before t = elim (Bool-cases (w.updates id s)) [
    | inl e ↦ rw e (touch f keeps t)
    | inr e ↦ rw e t
  ]

  mark-IsDone : ((q : QueueItem) → IsSettled (f q)) → IsDone w id (mark w id s f db).queue
  unfolding mark
  mark-IsDone settles = elim (Bool-cases (w.updates id s)) [
    | inl e ↦ rw e (inl (update-settles id f keeps db.queue settles))
    | inr e ↦ inr (s, e)
  ]

-- A round leaves the other rows alone, and its own row is done.
abbrev pub IsProcessed : World → ℕ → List QueueItem → List QueueItem → Type 0
IsProcessed w id before after = IsTouched id before after × IsDone w id after

module _ (w : World) (id : ℕ) (before : List QueueItem) (db : Db)
    (t : IsTouched id before db.queue) where
  sent-IsProcessed : IsProcessed w id before (mark_sent w id db).queue
  unfolding mark_sent
  sent-IsProcessed = (
    mark-IsTouched w id sent _ (λ q. refl) db before t,
    mark-IsDone w id sent _ (λ q. refl) db (λ q. inl (refl, (w.now, refl))),
  )

  failed-IsProcessed : (why : Text) → IsProcessed w id before (mark_failed w why id db).queue
  unfolding mark_failed
  failed-IsProcessed why = (
    mark-IsTouched w id failed _ (λ q. refl) db before t,
    mark-IsDone w id failed _ (λ q. refl) db (λ q. inr (refl, (why, refl))),
  )

module _ (w : World) (q : QueueItem) (db : Db) where
  sending-IsTouched : IsTouched q.id db.queue (mark_sending w q.id db).queue
  unfolding mark_sending
  sending-IsTouched = mark-IsTouched w q.id sending _ (λ x. refl) db db.queue untouched

  write_in_app-queue :
      (tenant_id : ℕ) (to_address body : Text) (start written : Db)
      → write_in_app w q tenant_id to_address body start ≡ ok written
      → written.queue ≡ start.queue
  unfolding write_in_app insert_notification
  write_in_app-queue tenant_id to_address body start written h = ground (arith, h)

  process_in_app-IsProcessed :
      (tenant_id : ℕ) (to_address body : Text)
      → IsProcessed w q.id db.queue
          (process_in_app w q tenant_id to_address body (mark_sending w q.id db)).queue
  unfolding process_in_app
  process_in_app-IsProcessed tenant_id to_address body =
      let start = mark_sending w q.id db in
      elim (Result-cases (write_in_app w q tenant_id to_address body start)) [
        | inl (written, e) ↦
            rw (e, process_in_app)
              (sent-IsProcessed w q.id db.queue written (
                rw (write_in_app-queue tenant_id to_address body start written e)
                  sending-IsTouched))
        | inr (why, e) ↦
            rw (e, process_in_app) (failed-IsProcessed w q.id db.queue start sending-IsTouched _)
      ]

  process_delivery-IsProcessed :
      (channel to_address body : Text)
      → IsProcessed w q.id db.queue
          (process_delivery w q channel to_address body (mark_sending w q.id db)).queue
  unfolding process_delivery
  process_delivery-IsProcessed channel to_address body =
      let start = mark_sending w q.id db in
      elim (Bool-cases (w.deliver q channel to_address body).ok) [
        | inl e ↦ rw e (sent-IsProcessed w q.id db.queue start sending-IsTouched)
        | inr e ↦ rw e (failed-IsProcessed w q.id db.queue start sending-IsTouched _)
      ]

  pub process_item-IsProcessed : IsProcessed w q.id db.queue (process_item w q db).queue
  unfolding process_item
  process_item-IsProcessed =
      elim (Option-cases (addressed q.tenant_id q.channel q.to_address q.body)) [
        | inl e ↦ rw (e, process_item) (failed-IsProcessed w q.id db.queue db untouched _)
        | inr ((tenant_id, channel, to_address, body), e) ↦
            rw (e, process_item)
              (elim (Bool-cases (text_eq channel (codes "in_app"))) [
                | inl here ↦ rw here (process_in_app-IsProcessed tenant_id to_address body)
                | inr away ↦ rw away (process_delivery-IsProcessed channel to_address body)
              ])
      ]
