-- ===== src/Notifications/Batch.antt =====
-- Which rows one run of the worker takes.
use core_swift_crm.Prelude.{
  ℕ, suc, zero, ◌≤◌, ◌≡◌, ◌≢◌, refl, sym, ap, ◌⊎◌, inl, inr, true, false, not, List, [], ◌∷◌, ◌++◌,
  arith, leb, All, length, Bool-cases,
}
use mathlib.Core.List.{Perm}
use mathlib.Core.List.Perm
use mathlib.Core.Path.{subst}
use core_swift_crm.Prelude.Sorting.{IsOrdered, select-perm}
use core_swift_crm.Prelude.Tables.{select, All-map, All-selected, All-always}
use core_swift_crm.Notifications.{
  QueueItem, Db, Status, queued, sending, sent, failed, is_queued, insert_by_time, by_time, take,
  batch,
}

-- Not younger.
abbrev pub Older : QueueItem → QueueItem → Type 0
Older a b = a.created_at ≤ b.created_at

insert_by_time-All :
    (P : QueueItem → Type 0) (q : QueueItem) (rows : List QueueItem)
    → P q
    → All P rows
    → All P (insert_by_time q rows)
insert_by_time-All P q [] h k = (h, tt)
insert_by_time-All P q (x ∷ rows) h k = elim (Bool-cases (leb q.created_at x.created_at)) [
  | inl e ↦ rw e (h, k)
  | inr e ↦ rw e (k.0, insert_by_time-All P q rows h k.1)
]

insert_by_time-IsOrdered :
    (q : QueueItem) (rows : List QueueItem)
    → IsOrdered Older rows
    → IsOrdered Older (insert_by_time q rows)
insert_by_time-IsOrdered q [] h = (tt, tt)
insert_by_time-IsOrdered q (x ∷ rows) h = elim (Bool-cases (leb q.created_at x.created_at)) [
  | inl e ↦
      let below : q.created_at ≤ x.created_at = ground (arith, e) in
      rw e ((below, All-map (Older x) (Older q) (λ y k. omega (arith, below, k)) rows h.0), h)
  | inr e ↦ rw e (
    insert_by_time-All (Older x) q rows (ground (arith, e)) h.0,
    insert_by_time-IsOrdered q rows h.1,
  )
]

insert_by_time-perm :
    (q : QueueItem) (rows : List QueueItem) → Perm (insert_by_time q rows) (q ∷ rows)
insert_by_time-perm q [] = Perm.rfl
insert_by_time-perm q (x ∷ rows) = elim (Bool-cases (leb q.created_at x.created_at)) [
  | inl e ↦ rw e Perm.rfl
  | inr e ↦ rw e (Perm.trans (Perm.cons x (insert_by_time-perm q rows)) (Perm.swap q x rows))
]

by_time-IsOrdered : (rows : List QueueItem) → IsOrdered Older (by_time rows)
by_time-IsOrdered [] = tt
by_time-IsOrdered (q ∷ rows) = insert_by_time-IsOrdered q (by_time rows) (by_time-IsOrdered rows)

by_time-perm : (rows : List QueueItem) → Perm (by_time rows) rows
by_time-perm [] = Perm.rfl
by_time-perm (q ∷ rows) =
    Perm.trans (insert_by_time-perm q (by_time rows)) (Perm.cons q (by_time-perm rows))

by_time-All : (P : QueueItem → Type 0) (rows : List QueueItem) → All P rows → All P (by_time rows)
by_time-All P [] h = tt
by_time-All P (q ∷ rows) h = insert_by_time-All P q (by_time rows) h.0 (by_time-All P rows h.1)

abbrev drop {ℓ} : {A : Type ℓ} → ℕ → List A → List A
drop zero xs = xs
drop (suc n) [] = []
drop (suc n) (x ∷ xs) = drop n xs

take-append-drop : (n : ℕ) (xs : List QueueItem) → take n xs ++ drop n xs ≡ xs
take-append-drop zero xs = refl
take-append-drop (suc n) [] = refl
take-append-drop (suc n) (x ∷ xs) = ap (λ l. x ∷ l) (take-append-drop n xs)

length-take : (n : ℕ) (xs : List QueueItem) → length (take n xs) ≤ n
length-take zero xs = omega arith
length-take (suc n) [] = omega arith
length-take (suc n) (x ∷ xs) = omega (arith, length-take n xs)

take-full : (n : ℕ) (xs : List QueueItem) → (length (take n xs) ≡ n) ⊎ (drop n xs ≡ [])
take-full zero xs = inl refl
take-full (suc n) [] = inr refl
take-full (suc n) (x ∷ xs) = elim (take-full n xs) [ inl e ↦ inl (ap suc e) | inr e ↦ inr e ]

queued_iff : (s : Status) → (is_queued s ≡ true → s ≡ queued) × (is_queued s ≡ false → s ≢ queued)
queued_iff queued = ((λ e. refl), (λ e. absurd (cc e)))
queued_iff sending = ((λ e. absurd (cc e)), (λ e. λ k. cc k))
queued_iff sent = ((λ e. absurd (cc e)), (λ e. λ k. cc k))
queued_iff failed = ((λ e. absurd (cc e)), (λ e. λ k. cc k))

-- The rows are the oldest ten of the queued rows of the queue, or all of them if there are not more:
-- `rest` are the queued rows that have to wait, and `others` the rows that are not queued.
pub record IsOldestQueued (queue items : List QueueItem) : Type 0 where
  pub rest : List QueueItem
  pub others : List QueueItem
  pub all_rows : Perm ((items ++ rest) ++ others) queue
  pub are_queued : All (λ q. q.status ≡ queued) (items ++ rest)
  pub are_not : All (λ q. q.status ≢ queued) others
  pub in_order : IsOrdered Older (items ++ rest)
  pub at_most : length items ≤ 10
  pub full : (length items ≡ 10) ⊎ (rest ≡ [])

pub batch-IsOldestQueued : (db : Db) → IsOldestQueued db.queue (batch db)
unfolding batch
batch-IsOldestQueued db = record {
  rest = drop 10 sorted;
  others = others;
  all_rows =
      subst (λ l. Perm (l ++ others) db.queue) (sym whole)
        (Perm.trans (Perm.append_right others (by_time-perm waiting))
          (select-perm (λ q. is_queued q.status) db.queue));
  are_queued = subst (All (λ q. q.status ≡ queued)) (sym whole) (
      by_time-All (λ q. q.status ≡ queued) waiting
        (All-map _ (λ q. q.status ≡ queued) (λ q h. (queued_iff q.status).0 h.1) waiting
          (All-selected (λ _. Unit {0}) (λ q. is_queued q.status) db.queue
            (All-always _ (λ _. tt) db.queue))));
  are_not =
      All-map _ (λ q. q.status ≢ queued) (λ q h. (queued_iff q.status).1 (ground (arith, h.1)))
        others
        (All-selected (λ _. Unit {0}) (λ q. not (is_queued q.status)) db.queue
          (All-always _ (λ _. tt) db.queue));
  in_order = subst (IsOrdered Older) (sym whole) (by_time-IsOrdered waiting);
  at_most = length-take 10 sorted;
  full = take-full 10 sorted;
}
  where
    waiting : List QueueItem
    waiting = select (λ q. is_queued q.status) db.queue

    sorted : List QueueItem
    sorted = by_time waiting

    others : List QueueItem
    others = select (λ q. not (is_queued q.status)) db.queue

    whole : take 10 sorted ++ drop 10 sorted ≡ sorted
    whole = take-append-drop 10 sorted
