-- ===== src/Notifications/Settled.antt =====
-- After a run of the worker its items are settled, and the rest of the queue is as it was.
use core_swift_crm.Prelude.{
  ℕ, ◌≡◌, refl, ◌∙◌, Bool, true, false, not, inl, inr, List, [], ◌∷◌, ◌++◌, ap, map, arith, ◌==◌,
  ==_iff, All, Bool-cases,
}
use mathlib.Core.Path.{subst}
use core_swift_crm.Prelude.Tables.{select}
use core_swift_crm.Notifications.{
  QueueItem, Db, World, batch, process_item, process_each, process_notification_queue,
}
use core_swift_crm.Notifications.Batch.{IsOldestQueued, batch-IsOldestQueued}
use core_swift_crm.Notifications.Outcomes.{
  IsDone, IsProcessed, listed, touched-others, touched-ids, touched-SettledAt,
  process_item-IsProcessed,
}

-- A round for one id leaves another one done.
processed-still :
    (w : World) (id id' : ℕ) (before after : List QueueItem)
    → IsProcessed w id before after
    → IsDone w id' before
    → IsDone w id' after
processed-still w id id' before after p h = elim (Bool-cases (id' == id)) [
  | inl here ↦ rw ((==_iff id' id).0 here) p.1
  | inr away ↦ elim h [
    | inl settled ↦
        inl (
          touched-SettledAt id before after p.0 id' (λ e. absurd (ground (arith, e, away))) settled)
    | inr broken ↦ inr broken
  ]
]

module _ (w : World) where
  process_each-still :
      (id : ℕ) (items : List QueueItem) (db : Db)
      → IsDone w id db.queue
      → IsDone w id (process_each w items db).queue
  unfolding process_each
  process_each-still id [] db h = h
  process_each-still id (q ∷ items) db h =
      process_each-still id items (process_item w q db)
        (processed-still w q.id id _ _ (process_item-IsProcessed w q db) h)

  process_each-IsDone :
      (items : List QueueItem) (db : Db)
      → All (λ q. IsDone w q.id (process_each w items db).queue) items
  unfolding process_each
  process_each-IsDone [] db = tt
  process_each-IsDone (q ∷ items) db = (
    process_each-still q.id items (process_item w q db) (process_item-IsProcessed w q db).1,
    process_each-IsDone items (process_item w q db),
  )

  process_each-ids :
      (items : List QueueItem) (db : Db)
      → map (λ q. q.id) (process_each w items db).queue ≡ map (λ q. q.id) db.queue
  unfolding process_each
  process_each-ids [] db = refl
  process_each-ids (q ∷ items) db =
      process_each-ids items (process_item w q db)
      ∙ touched-ids q.id db.queue _ (process_item-IsProcessed w q db).0

  process_each-others :
      (p : QueueItem → Bool)
      → ((q r : QueueItem) → q.id ≡ r.id → p q ≡ p r)
      → (items : List QueueItem) (db : Db) → All (λ i. p i ≡ false) items
      → select p (process_each w items db).queue ≡ select p db.queue
  unfolding process_each
  process_each-others p by_id [] db out = refl
  process_each-others p by_id (q ∷ items) db out =
      process_each-others p by_id items (process_item w q db) out.1
      ∙ touched-others q.id db.queue _ (process_item-IsProcessed w q db).0 p
          (λ x e. by_id x q e ∙ out.0) by_id

not_listed-by_id :
    (items : List QueueItem) (q r : QueueItem)
    → q.id ≡ r.id
    → not (listed items q) ≡ not (listed items r)
not_listed-by_id items q r e = rw e refl

append_one :
    (front : List QueueItem) (q : QueueItem) (rest : List QueueItem)
    → (front ++ q ∷ []) ++ rest ≡ front ++ q ∷ rest
append_one [] q rest = refl
append_one (x ∷ front) q rest = ap (λ l. x ∷ l) (append_one front q rest)

listed-there :
    (front items : List QueueItem) → All (λ i. not (listed (front ++ items) i) ≡ false) items
listed-there front [] = tt
listed-there front (q ∷ items) = (
  ground (arith, here front),
  subst (λ l. All (λ i. not (listed l i) ≡ false) items) (append_one front q items)
      (listed-there (front ++ q ∷ []) items),
)
  where
    here : (front : List QueueItem) → listed (front ++ q ∷ items) q ≡ true
    here [] = ground arith
    here (x ∷ front) = ground (arith, here front)

-- A run of the worker takes the ten oldest queued rows, or all queued rows if there are not more.
-- Each of them, however its delivery goes, is afterwards sent, with the time of it, or failed, with
-- the reason, unless one of its own updates failed. No row is added or lost, and all other rows are
-- as they were.
pub process_notification_queue-IsSettled :
    (w : World) (db : Db)
    → IsOldestQueued db.queue (batch db)
      × All (λ q. IsDone w q.id (process_notification_queue w db).queue) (batch db)
      × (map (λ q. q.id) (process_notification_queue w db).queue ≡ map (λ q. q.id) db.queue)
      × (select (λ q. not (listed (batch db) q)) (process_notification_queue w db).queue
          ≡ select (λ q. not (listed (batch db) q)) db.queue)
unfolding process_notification_queue
process_notification_queue-IsSettled w db = (
  batch-IsOldestQueued db,
  process_each-IsDone w (batch db) db,
  process_each-ids w (batch db) db,
  process_each-others w (λ q. not (listed (batch db) q)) (not_listed-by_id (batch db)) (batch db) db
      (listed-there [] (batch db)),
)
