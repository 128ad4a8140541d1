-- ===== src/Chunkserver/LeaseTable/Serials.antt =====
-- Sequences of calls on the lease table: serial numbers, and what a revocation does.
use gfs_impl_cpp.Base.{
  Bool-cases, Option-cases, All, ℕ, ◌+◌, ◌%◌, ◌<◌, ◌≡◌, refl, sym, ap, ◌∙◌, ◌≢◌, inl, inr, ite,
  if_pos, if_neg, false, Option, none, List, [], ◌∷◌, arith, ℕ_discrete,
}
use gfs_impl_cpp.Base.Bytes.{bytes_key}
use gfs_impl_cpp.Base.Int.{ℤ}
use gfs_impl_cpp.Base.Map.{nat_key, lookup, lookup-insert}
use gfs_impl_cpp.Common.Replica.{Replica}
use gfs_impl_cpp.Chunkserver.LeaseTable.{
  u64_mod, Slot, LeaseTable, not_held, slot_or_fresh, write_slot, grant, extend, revoke, check,
  next_serial,
}

-- The calls that change the table, with the clock's reading where they take one.
pub data Call : Type 0 where
  grants : ℤ → ℕ → ℤ → List Replica → Call
  extends : ℤ → ℕ → ℤ → Call
  revokes : ℕ → Call
  serials : ℕ → Call

pub after : LeaseTable → Call → LeaseTable
after t (grants now handle lease secondaries) = grant t now handle lease secondaries
after t (extends now handle lease) = (extend t now handle lease).0
after t (revokes handle) = revoke t handle
after t (serials handle) = (next_serial t handle).0

pub run : LeaseTable → List Call → LeaseTable
run t [] = t
run t (c ∷ cs) = run (after t c) cs

abbrev pub slot_of : LeaseTable → ℕ → Slot
slot_of t handle = slot_or_fresh (lookup handle t.slots)

-- How many serial numbers of the chunk the calls take.
abbrev pub takes : ℕ → Call → ℕ
takes h (serials handle) = ite (ℕ_discrete h handle) 1 0
takes h _ = 0

abbrev pub taken : ℕ → List Call → ℕ
taken h [] = 0
taken h (c ∷ cs) = takes h c + taken h cs

pub slot_of-write_slot :
    (t : LeaseTable) (handle : ℕ) (slot : Slot) (h : ℕ)
    → slot_of (write_slot t handle slot) h ≡ ite (ℕ_discrete h handle) slot (slot_of t h)
unfolding write_slot
slot_of-write_slot t handle slot h = ground (arith, lookup-insert h handle slot t.slots)

pub slot_of-write_same :
    (t : LeaseTable) (h : ℕ) (slot : Slot) → slot_of (write_slot t h slot) h ≡ slot
slot_of-write_same t h slot =
    slot_of-write_slot t h slot h ∙ if_pos (ℕ_discrete h h) refl slot (slot_of t h)

pub slot_of-write_other :
    (t : LeaseTable) (handle : ℕ) (slot : Slot) (h : ℕ)
    → h ≢ handle
    → slot_of (write_slot t handle slot) h ≡ slot_of t h
slot_of-write_other t handle slot h n =
    slot_of-write_slot t handle slot h ∙ if_neg (ℕ_discrete h handle) n slot (slot_of t h)

-- A write that leaves `next_serial` as it was.
serial-write_slot :
    (t : LeaseTable) (handle : ℕ) (slot : Slot) (h : ℕ)
    → slot.next_serial ≡ (slot_of t handle).next_serial
    → (slot_of (write_slot t handle slot) h).next_serial ≡ (slot_of t h).next_serial
serial-write_slot t handle slot h e = elim (ℕ_discrete h handle) [
  | yes p ↦ rw (slot_of-write_slot t handle slot h, if_pos _ p slot (slot_of t h), e, p) refl
  | no p ↦ rw (slot_of-write_slot t handle slot h, if_neg _ p slot (slot_of t h)) refl
]

serial-after :
    (t : LeaseTable) (c : Call) (h : ℕ)
    → (slot_of t h).next_serial < u64_mod
    → (slot_of (after t c) h).next_serial ≡ ((slot_of t h).next_serial + takes h c) % u64_mod
unfolding after extend revoke next_serial
serial-after t (grants now handle lease secondaries) h small =
    unfold grant in serial-write_slot t handle _ h refl ∙ (omega arith)
serial-after t (extends now handle lease) h small = elim (Option-cases (lookup handle t.slots)) [
  | inl e ↦ rw (e, after, extend) (omega arith)
  | inr (slot, e) ↦ elim (Bool-cases slot.held) [
    | inl b ↦ rw (e, after, extend, b) (serial-write_slot t handle _ h (rw e refl) ∙ (omega arith))
    | inr b ↦ rw (e, after, extend, b) (omega arith)
  ]
]
serial-after t (revokes handle) h small = elim (Option-cases (lookup handle t.slots)) [
  | inl e ↦ rw (e, after, revoke) (omega arith)
  | inr (slot, e) ↦
      rw (e, after, revoke) (serial-write_slot t handle _ h (rw e refl) ∙ (omega arith))
]
serial-after t (serials handle) h small = elim (ℕ_discrete h handle) [
  | yes p ↦
      let k : takes h (serials handle) ≡ 1 = if_pos (ℕ_discrete h handle) p 1 0 in
      rw (k, p, after, next_serial)
        (ap (λ (s : Slot). s.next_serial) (slot_of-write_same t handle _))
  | no p ↦
      let k : takes h (serials handle) ≡ 0 = if_neg (ℕ_discrete h handle) p 1 0 in
      ap (λ (s : Slot). s.next_serial) (slot_of-write_other t handle _ h p) ∙ (omega (arith, k))
]

-- The serial numbers of a chunk go up by one with each that is taken, whatever else is called.
serial-run :
    (t : LeaseTable) (cs : List Call) (h : ℕ)
    → (slot_of t h).next_serial < u64_mod
    → (slot_of (run t cs) h).next_serial ≡ ((slot_of t h).next_serial + taken h cs) % u64_mod
unfolding run
serial-run t [] h small = omega arith
serial-run t (c ∷ cs) h small =
    let e = serial-after t c h small in
    serial-run (after t c) cs h (omega (arith, e)) ∙ (omega (arith, e))

-- A serial number that is taken after another one of the same chunk is larger by one more than the
-- serial numbers that were taken in between, whatever else was called, as long as the numbers stay
-- below 2^64.
pub next_serial-run :
    (t : LeaseTable) (cs : List Call) (h : ℕ)
    → (next_serial t h).1 + taken h cs + 1 < u64_mod
    → (next_serial (run (next_serial t h).0 cs) h).1 ≡ (next_serial t h).1 + taken h cs + 1
unfolding next_serial after
next_serial-run t cs h small =
    let n : (next_serial t h).1 ≡ (slot_of t h).next_serial = (unfold next_serial in refl) in
    let m : (next_serial (run (after t (serials h)) cs) h).1
        ≡ (slot_of (run (after t (serials h)) cs) h).next_serial =
      (unfold next_serial in refl) in
    let one = serial-after t (serials h) h (omega (arith, n)) in
    let all = serial-run (after t (serials h)) cs h (omega (arith, one, n)) in
    let k : takes h (serials h) ≡ 1 = if_pos _ refl 1 0 in m ∙ omega (arith, n, one, all, k)

-- The calls hold no grant for the chunk.
abbrev pub NoGrant : ℕ → Call → Type 0
NoGrant h (grants now handle lease secondaries) = h ≢ handle
NoGrant h _ = Unit {0}

-- A write that leaves `held` as it was.
held-write_slot :
    (t : LeaseTable) (handle : ℕ) (slot : Slot) (h : ℕ)
    → slot.held ≡ (slot_of t handle).held
    → (slot_of t h).held ≡ false
    → (slot_of (write_slot t handle slot) h).held ≡ false
held-write_slot t handle slot h e n = elim (ℕ_discrete h handle) [
  | yes p ↦ rw (slot_of-write_slot t handle slot h, if_pos _ p slot (slot_of t h), e, sym p) n
  | no p ↦ rw (slot_of-write_slot t handle slot h, if_neg _ p slot (slot_of t h)) n
]

not_held-after :
    (t : LeaseTable) (c : Call) (h : ℕ)
    → NoGrant h c
    → (slot_of t h).held ≡ false
    → (slot_of (after t c) h).held ≡ false
unfolding after grant extend revoke next_serial
not_held-after t (grants now handle lease secondaries) h n e =
    ap (λ (s : Slot). s.held) (slot_of-write_other t handle _ h n) ∙ e
not_held-after t (extends now handle lease) h n e = elim (Option-cases (lookup handle t.slots)) [
  | inl k ↦ rw (k, after, extend) e
  | inr (slot, k) ↦ elim (Bool-cases slot.held) [
    | inl b ↦ rw (k, after, extend, b) (held-write_slot t handle _ h (rw (k, b) refl) e)
    | inr b ↦ rw (k, after, extend, b) e
  ]
]
not_held-after t (revokes handle) h n e = elim (Option-cases (lookup handle t.slots)) [
  | inl k ↦ rw (k, after, revoke) e
  | inr (slot, k) ↦ elim (ℕ_discrete h handle) [
    | yes p ↦ rw (k, after, revoke, p) (ap (λ (s : Slot). s.held) (slot_of-write_same t handle _))
    | no p ↦
        rw (k, after, revoke) (ap (λ (s : Slot). s.held) (slot_of-write_other t handle _ h p) ∙ e)
  ]
]
not_held-after t (serials handle) h n e = held-write_slot t handle _ h refl e

not_held-run :
    (t : LeaseTable) (cs : List Call) (h : ℕ)
    → All (NoGrant h) cs
    → (slot_of t h).held ≡ false
    → (slot_of (run t cs) h).held ≡ false
unfolding run
not_held-run t [] h n e = e
not_held-run t (c ∷ cs) h n e = not_held-run (after t c) cs h n.1 (not_held-after t c h n.0 e)

revoke-not_held : (t : LeaseTable) (h : ℕ) → (slot_of (revoke t h) h).held ≡ false
unfolding revoke
revoke-not_held t h = elim (Option-cases (lookup h t.slots)) [
  | inl k ↦ rw (k, revoke) (rw k refl)
  | inr (slot, k) ↦ rw (k, revoke) (ap (λ (s : Slot). s.held) (slot_of-write_same t h _))
]

-- After a revocation the chunkserver does not take itself for the primary of the chunk at any time,
-- whatever is called, extensions included, until the lease is granted again.
pub check-revoke :
    (t : LeaseTable) (cs : List Call) (h : ℕ) (now : ℤ)
    → All (NoGrant h) cs
    → check (run (revoke t h) cs) now h ≡ (not_held, none)
unfolding check
check-revoke t cs h now n =
    let e = not_held-run (revoke t h) cs h n (revoke-not_held t h) in
    elim (Option-cases (lookup h (run (revoke t h) cs).slots)) [
      | inl k ↦ rw (k, check) refl
      | inr (slot, k) ↦
          let b : slot.held ≡ false =
            sym (ap (λ (s : Option Slot). (slot_or_fresh s).held) k) ∙ e in
          rw (k, check, b) refl
    ]
