-- ===== src/Lists/Members.antt =====
-- Which contacts are members after the inserts and deletes of an evaluation.
use core_swift_crm.Prelude.{
  ℕ, true, false, ◌&&◌, ◌||◌, not, List, [], ◌∷◌, ◌++◌, ◌≡◌, refl, arith, ◌==◌, All, Bool-cases,
  inl, inr,
}
use core_swift_crm.Prelude.Tables.{select, All-append}
use core_swift_crm.Lists.{
  ListRow, ListMember, Db, contains, member_ids, taken, insert_members, delete_members, minus,
  write_changes,
}
use core_swift_crm.Lists.Matched.{contains-minus}

-- The rows of the list are its tenant's.
abbrev pub OfTenant : ListRow → ListMember → Type 0
OfTenant list m = m.list_id == list.id ≡ true → m.tenant_id == list.tenant_id ≡ true

abbrev new_member : ListRow → ℕ → ListMember
new_member list cid = record {
  list_id = list.id;
  contact_id = cid;
  tenant_id = list.tenant_id;
  added_manually = false;
}

contains-append_member :
    (list : ListRow) (c cid : ℕ) (ms : List ListMember)
    → contains c (member_ids list (ms ++ new_member list cid ∷ []))
      ≡ (cid == c || contains c (member_ids list ms))
unfolding contains member_ids select
contains-append_member list c cid [] = ground arith
contains-append_member list c cid (m ∷ ms) = ground (arith, contains-append_member list c cid ms)

contains-taken :
    (list : ListRow) (cid : ℕ) (ms : List ListMember)
    → All (OfTenant list) ms
    → taken list.id cid ms ≡ true
    → contains cid (member_ids list ms) ≡ true
unfolding contains member_ids select taken
contains-taken list cid [] h t = ground arith
contains-taken list cid (m ∷ ms) h t = ground (arith, contains-taken list cid ms, h.0, h.1)

pub contains-insert_members :
    (list : ListRow) (c : ℕ) (cids : List ℕ) (ms : List ListMember)
    → All (OfTenant list) ms
    → contains c (member_ids list (insert_members list cids ms))
      ≡ (contains c cids || contains c (member_ids list ms))
unfolding insert_members contains
contains-insert_members list c [] ms h = refl
contains-insert_members list c (cid ∷ cids) ms h = elim (Bool-cases (taken list.id cid ms)) [
  | inl t ↦
      ground (arith, t, contains-taken list cid ms h t, contains-insert_members list c cids ms h)
  | inr f ↦ rw f (
      rw
        (
          contains-insert_members list c cids (ms ++ new_member list cid ∷ [])
              (All-append (OfTenant list) ms (new_member list cid ∷ []) h (own, tt)),
          contains-append_member list c cid ms,
        )
        (ground arith))
]
  where
    own : OfTenant list (new_member list cid)
    own e = ground arith

contains-delete :
    (list : ListRow) (c cid : ℕ) (ms : List ListMember)
    → contains c (
        member_ids list (
          select
            (λ m.
              not (m.list_id == list.id && m.contact_id == cid && m.tenant_id == list.tenant_id))
            ms))
      ≡ (contains c (member_ids list ms) && not (cid == c))
unfolding contains member_ids select
contains-delete list c cid [] = refl
contains-delete list c cid (m ∷ ms) = ground (arith, contains-delete list c cid ms)

pub contains-delete_members :
    (list : ListRow) (c : ℕ) (cids : List ℕ) (ms : List ListMember)
    → contains c (member_ids list (delete_members list cids ms))
      ≡ (contains c (member_ids list ms) && not (contains c cids))
unfolding delete_members contains
contains-delete_members list c [] ms = ground arith
contains-delete_members list c (cid ∷ cids) ms = ground (
  arith,
  contains-delete list c cid ms,
  contains-delete_members list c cids (
      select
        (λ m. not (m.list_id == list.id && m.contact_id == cid && m.tenant_id == list.tenant_id))
        ms),
)

pub contains-write_changes :
    (db : Db) (list : ListRow) (matched : List ℕ) (c : ℕ)
    → All (OfTenant list) db.members
    → contains c (member_ids list (write_changes db list matched).1.members) ≡ contains c matched
unfolding write_changes
contains-write_changes db list matched c h = ground (
  arith,
  contains-delete_members list c (minus (member_ids list db.members) matched)
      (insert_members list (minus matched (member_ids list db.members)) db.members),
  contains-insert_members list c (minus matched (member_ids list db.members)) db.members h,
  contains-minus c matched (member_ids list db.members),
  contains-minus c (member_ids list db.members) matched,
)
