-- ===== src/Master/LockTable/Exclusion.antt =====
-- Mutual exclusion of the locks of src/master/lock_table.cc, with any number of threads in any order.
use gfs_impl_cpp.Base.{
  ◌==◌, Bool-cases, Option-cases, ◌+◌, ◌-◌, ◌≤◌, ◌≡◌, refl, sym, ◌≢◌, inl, inr, none, some, List,
  ◌∷◌, ◌++◌, arith,
}
use gfs_impl_cpp.Base.Bytes.{Bytes, bytes_discrete, bytes_key}
use gfs_impl_cpp.Base.Map.{nat_key, lookup, insert, erase, lookup-insert, lookup-erase}
use mathlib.Core.Path.{subst}
use gfs_impl_cpp.Master.LockTable.{
  LockRequest, Entry, Entries, or_fresh, entry_locked, blocked, wakes, gives, lock_first,
  lock_again, unlock_one,
}
use gfs_impl_cpp.Master.LockTable.System.{
  System, after_lock, Step, arrives, retries, releases, unlocked, Reach, start, later, reads_one,
  writes_one, reads, writes, reads-append, writes-append,
}
use gfs_impl_cpp.Master.LockTable.Accounts.{
  Agrees, takes_first, waits_first, takes_again, waits_again, gives_back, erased, no_entry,
}

abbrev AgreesAt : System → Bytes → Type 0
AgreesAt s path =
    Agrees (or_fresh (lookup path s.entries)) (reads path s.holding) (writes path s.holding)
      (reads path s.waiting) (writes path s.waiting)

abbrev IsConsistent : System → Type 0
IsConsistent s = (path : Bytes) → AgreesAt s path

by_path :
    (q : Bytes) (P : Bytes → Type 0)
    → P q
    → ((path : Bytes) → path ≢ q → P path)
    → (path : Bytes) → P path
by_path q P self others path = elim (bytes_discrete path q) [
  | yes p ↦ subst P (sym p) self
  | no n ↦ others path n
]

lookup-insert_self : (q : Bytes) (e : Entry) (t : Entries) → lookup q (insert q e t) ≡ some e
lookup-insert_self q e t = ground (arith, lookup-insert q q e t)

lookup-insert_other :
    (path q : Bytes) (e : Entry) (t : Entries)
    → path ≢ q
    → lookup path (insert q e t) ≡ lookup path t
lookup-insert_other path q e t n = ground (arith, lookup-insert path q e t, n)

lookup-erase_self : (q : Bytes) (t : Entries) → lookup q (erase q t) ≡ none
lookup-erase_self q t = ground (arith, lookup-erase q q t)

lookup-erase_other :
    (path q : Bytes) (t : Entries) → path ≢ q → lookup path (erase q t) ≡ lookup path t
lookup-erase_other path q t n = ground (arith, lookup-erase path q t, n)

module _ (r : LockRequest) (rs : List LockRequest) where
  reads_self : reads r.path (r ∷ rs) ≡ reads_one r.mode + reads r.path rs
  unfolding reads
  reads_self = ground (arith)

  writes_self : writes r.path (r ∷ rs) ≡ writes_one r.mode + writes r.path rs
  unfolding writes
  writes_self = ground (arith)

  reads_other : (path : Bytes) → path ≢ r.path → reads path (r ∷ rs) ≡ reads path rs
  unfolding reads
  reads_other path n = ground (arith, n)

  writes_other : (path : Bytes) → path ≢ r.path → writes path (r ∷ rs) ≡ writes path rs
  unfolding writes
  writes_other path n = ground (arith, n)

reads_moved :
    (path : Bytes) (xs ys : List LockRequest) (r : LockRequest)
    → reads path (xs ++ r ∷ ys) ≡ reads path (r ∷ (xs ++ ys))
unfolding reads
reads_moved path xs ys r = ground (arith, reads-append path xs (r ∷ ys), reads-append path xs ys)

writes_moved :
    (path : Bytes) (xs ys : List LockRequest) (r : LockRequest)
    → writes path (xs ++ r ∷ ys) ≡ writes path (r ∷ (xs ++ ys))
unfolding writes
writes_moved path xs ys r = ground (arith, writes-append path xs (r ∷ ys), writes-append path xs ys)

-- A request that comes to hold its lock, and one that comes to wait, under the entry that it leaves.
module _ (t : Entries) (r : LockRequest) (holding waiting : List LockRequest)
    (others : (path : Bytes)
      → path ≢ r.path
      → Agrees
          (or_fresh (lookup path t))
          (reads path holding)
          (writes path holding)
          (reads path waiting)
          (writes path waiting)) where
  holds :
      (e : Entry)
      → Agrees e
          (reads_one r.mode + reads r.path holding)
          (writes_one r.mode + writes r.path holding)
          (reads r.path waiting)
          (writes r.path waiting)
      → IsConsistent
          (record { entries = insert r.path e t; holding = r ∷ holding; waiting = waiting })
  holds e g =
      by_path r.path
        (AgreesAt
          (record { entries = insert r.path e t; holding = r ∷ holding; waiting = waiting }))
        (rw (lookup-insert_self r.path e t, reads_self r holding, writes_self r holding) g)
        (λ path n.
          rw
            (
              lookup-insert_other path r.path e t n,
              reads_other r holding path n,
              writes_other r holding path n,
            )
            (others path n))

  keeps :
      (e : Entry)
      → Agrees e
          (reads r.path holding)
          (writes r.path holding)
          (reads_one r.mode + reads r.path waiting)
          (writes_one r.mode + writes r.path waiting)
      → IsConsistent
          (record { entries = insert r.path e t; holding = holding; waiting = r ∷ waiting })
  keeps e g =
      by_path r.path
        (AgreesAt
          (record { entries = insert r.path e t; holding = holding; waiting = r ∷ waiting }))
        (rw (lookup-insert_self r.path e t, reads_self r waiting, writes_self r waiting) g)
        (λ path n.
          rw
            (
              lookup-insert_other path r.path e t n,
              reads_other r waiting path n,
              writes_other r waiting path n,
            )
            (others path n))

arrives-IsConsistent :
    (s : System) (r : LockRequest)
    → IsConsistent s
    → IsConsistent (after_lock (lock_first s.entries r) r s.holding s.waiting)
unfolding lock_first entry_locked
arrives-IsConsistent s r v =
    let g = v r.path in
    let others = λ (path : Bytes) (n : path ≢ r.path). v path in
    let e : Entry = or_fresh (lookup r.path s.entries) in
    elim (Bool-cases (blocked r.mode (record e { refs = e.refs + 1 }))) [
      | inl b ↦
          rw (b, lock_first)
            (keeps s.entries r s.holding s.waiting others _ (waits_first r.mode e _ _ _ _ g))
      | inr b ↦
          rw (b, lock_first)
            (holds s.entries r s.holding s.waiting others _ (takes_first r.mode e _ _ _ _ g b))
    ]

-- The requests that are left when one of those that wait wakes.
retries-IsConsistent :
    (s : System) (xs ys : List LockRequest) (r : LockRequest)
    → s.waiting ≡ xs ++ r ∷ ys
    → IsConsistent s
    → IsConsistent (after_lock (lock_again s.entries r) r s.holding (xs ++ ys))
unfolding lock_again entry_locked
retries-IsConsistent s xs ys r w v =
    let moved : IsConsistent (record s { waiting = r ∷ (xs ++ ys) }) = λ path.
      rw (sym (reads_moved path xs ys r), sym (writes_moved path xs ys r))
        (subst (λ (l : List LockRequest). AgreesAt (record s { waiting = l }) path) w (v path)) in
    let e : Entry = or_fresh (lookup r.path s.entries) in
    let rest = xs ++ ys in
    let g : Agrees e (reads r.path s.holding) (writes r.path s.holding)
        (reads_one r.mode + reads r.path rest) (writes_one r.mode + writes r.path rest) =
      rw (reads_self r rest, writes_self r rest) at (moved r.path) in
    let others : (path : Bytes) → path ≢ r.path → AgreesAt (record s { waiting = rest }) path =
      λ path n. rw (reads_other r rest path n, writes_other r rest path n) at (moved path) in
    elim (Bool-cases (blocked r.mode (wakes r.mode e))) [
      | inl b ↦
          rw (b, lock_again)
            (keeps s.entries r s.holding rest others _ (waits_again r.mode e _ _ _ _ g))
      | inr b ↦
          rw (b, lock_again)
            (holds s.entries r s.holding rest others _ (takes_again r.mode e _ _ _ _ g b))
    ]

releases-IsConsistent :
    (s : System) (xs ys : List LockRequest) (r : LockRequest)
    → s.holding ≡ xs ++ r ∷ ys
    → IsConsistent s
    → IsConsistent
        (record { entries = unlock_one s.entries r; holding = xs ++ ys; waiting = s.waiting })
unfolding unlock_one
releases-IsConsistent s xs ys r w v =
    let rest = xs ++ ys in
    let moved : IsConsistent (record s { holding = r ∷ rest }) = λ path.
      rw (sym (reads_moved path xs ys r), sym (writes_moved path xs ys r))
        (subst (λ (l : List LockRequest). AgreesAt (record s { holding = l }) path) w (v path)) in
    let g : Agrees (or_fresh (lookup r.path s.entries)) (reads_one r.mode + reads r.path rest)
        (writes_one r.mode + writes r.path rest) (reads r.path s.waiting)
        (writes r.path s.waiting) =
      rw (reads_self r rest, writes_self r rest) at (moved r.path) in
    let others : (path : Bytes) → path ≢ r.path → AgreesAt (record s { holding = rest }) path =
      λ path n. rw (reads_other r rest path n, writes_other r rest path n) at (moved path) in
    elim (Option-cases (lookup r.path s.entries)) [
      | inl e ↦ absurd (no_entry r.mode _ _ _ _ (rw e at g))
      | inr (e, found) ↦
          let left = gives_back r.mode e _ _ _ _ (rw found at g) in
          elim (Bool-cases (e.refs - 1 == 0)) [
            | inl z ↦
                rw (found, unlock_one, z)
                  (by_path r.path
                    (AgreesAt (record {
                      entries = erase r.path s.entries;
                      holding = rest;
                      waiting = s.waiting;
                    }))
                    (rw (lookup-erase_self r.path s.entries) (
                      erased (record (gives r.mode e) { refs = e.refs - 1 }) _ _ _ _ left
                        (ground (arith, z))))
                    (λ path n. rw (lookup-erase_other path r.path s.entries n) (others path n)))
            | inr z ↦
                rw (found, unlock_one, z)
                  (by_path r.path
                    (AgreesAt (record {
                      entries =
                          insert r.path (record (gives r.mode e) { refs = e.refs - 1 }) s.entries;
                      holding = rest;
                      waiting = s.waiting;
                    }))
                    (rw
                      (lookup-insert_self r.path (record (gives r.mode e) { refs = e.refs - 1 })
                        s.entries)
                      left)
                    (λ path n.
                      rw
                        (lookup-insert_other path r.path
                          (record (gives r.mode e) { refs = e.refs - 1 }) s.entries n)
                        (others path n)))
          ]
    ]

step-IsConsistent : {s s' : System} → Step s s' → IsConsistent s → IsConsistent s'
step-IsConsistent {s} (arrives r) v = arrives-IsConsistent s r v
step-IsConsistent {s} (retries xs ys r w) v = retries-IsConsistent s xs ys r w v
step-IsConsistent {s} (releases xs ys r w) v = releases-IsConsistent s xs ys r w v

unlocked-IsConsistent : IsConsistent unlocked
unfolding reads writes lookup
unlocked-IsConsistent path = record {
  readers_agree = refl;
  writer_agrees = refl;
  waiting_agree = refl;
  refs_agree = omega arith;
  alone = λ w. refl;
}

reach-IsConsistent : {s : System} → Reach s → IsConsistent s
reach-IsConsistent start = unlocked-IsConsistent
reach-IsConsistent (later path step) = step-IsConsistent step (reach-IsConsistent path)

-- Whatever the threads do and in whatever order they wake, a path is never locked for writing twice,
-- and never for writing and reading at once; and an entry's counts are those of the locks that are
-- held and of the requests that wait, so that an entry is dropped only when nobody uses it.
pub reach-Excludes :
    (s : System) (path : Bytes)
    → Reach s
    → (writes path s.holding ≤ 1)
      × (writes path s.holding ≡ 1 → reads path s.holding ≡ 0)
      × ((entry_locked s.entries path).refs
          ≡ reads path s.holding
            + writes path s.holding
            + reads path s.waiting
            + writes path s.waiting)
unfolding entry_locked
reach-Excludes s path reached =
    let g : AgreesAt s path = reach-IsConsistent reached path in
    (
      ground (arith, g.writer_agrees, Bool-cases (or_fresh (lookup path s.entries)).writer),
      λ w. g.alone (
          ground (arith, g.writer_agrees, w, Bool-cases (or_fresh (lookup path s.entries)).writer)),
      g.refs_agree,
    )
