-- ===== src/Chunkserver/LeaseTable.antt =====
-- src/chunkserver/lease_table.h and lease_table.cc: the leases that a chunkserver holds. `now` is the
-- reading of the clock that the operation takes, and times count the clock's ticks.
pub mod Serials
use gfs_impl_cpp.Base.{
  if◌then◌else◌, ℕ, ◌+◌, ◌%◌, ◌^◌, Bool, true, false, not, ◌&&◌, Option, none, some, List, [], ◌∷◌,
}
use gfs_impl_cpp.Base.Bytes.{bytes_key}
use gfs_impl_cpp.Base.Int.{ℤ, pos, ◌+ℤ◌, ◌-ℤ◌, ltb_ℤ}
use gfs_impl_cpp.Base.Map.{nat_key, Map, lookup, insert}
use gfs_impl_cpp.Common.Replica.{Replica}

abbrev pub u64_mod : ℕ
u64_mod = 2 ^ 64

pub record Slot : Type 0 where
  pub held : Bool
  pub expiry : ℤ
  pub secondaries : List Replica
  pub next_serial : ℕ
  pub mutated_since_renewal : Bool

-- The entry that `slots_[handle]` makes.
abbrev pub fresh_slot : Slot
fresh_slot = record {
  held = false;
  expiry = pos 0;
  secondaries = [];
  next_serial = 1;
  mutated_since_renewal = false;
}

pub record LeaseTable : Type 0 where
  pub skew_margin : ℤ
  pub slots : Map ℕ Slot

pub record LeaseInfo : Type 0 where
  pub expiry : ℤ
  pub secondaries : List Replica

pub data LeaseCheck : Type 0 where
  primary : LeaseCheck
  expired : LeaseCheck
  not_held : LeaseCheck

-- `slots_[handle]`.
abbrev pub slot_or_fresh : Option Slot → Slot
slot_or_fresh none = fresh_slot
slot_or_fresh (some slot) = slot

unfoldable pub write_slot : LeaseTable → ℕ → Slot → LeaseTable
write_slot t handle slot = record t { slots = insert handle slot t.slots }

unfoldable pub grant : LeaseTable → ℤ → ℕ → ℤ → List Replica → LeaseTable
grant t now handle lease secondaries =
    let slot = slot_or_fresh (lookup handle t.slots) in
    write_slot t handle (record slot {
      held = true;
      expiry = now +ℤ lease -ℤ t.skew_margin;
      secondaries = secondaries;
      mutated_since_renewal = false;
    })

unfoldable pub extend : LeaseTable → ℤ → ℕ → ℤ → LeaseTable × Bool
extend t now handle lease = elim (lookup handle t.slots) [
  | none ↦ (t, false)
  | some slot ↦
      if slot.held
      then (
        write_slot t handle
            (record slot { expiry = now +ℤ lease -ℤ t.skew_margin; mutated_since_renewal = false }),
        true,
      )
      else (t, false)
]

unfoldable pub revoke : LeaseTable → ℕ → LeaseTable
revoke t handle = elim (lookup handle t.slots) [
  | none ↦ t
  | some slot ↦ write_slot t handle (record slot { held = false; secondaries = [] })
]

-- The result and, for the primary, what `info` is filled with.
unfoldable pub check : LeaseTable → ℤ → ℕ → LeaseCheck × Option LeaseInfo
check t now handle = elim (lookup handle t.slots) [
  | none ↦ (not_held, none)
  | some slot ↦
      if not slot.held
      then (not_held, none)
      else if ltb_ℤ slot.expiry now
      then (expired, none)
      else (primary, some (record { expiry = slot.expiry; secondaries = slot.secondaries }))
]

unfoldable pub next_serial : LeaseTable → ℕ → LeaseTable × ℕ
next_serial t handle =
    let slot = slot_or_fresh (lookup handle t.slots) in
    (
      write_slot t handle (record slot {
        mutated_since_renewal = true;
        next_serial = (slot.next_serial + 1) % u64_mod;
      }),
      slot.next_serial,
    )

-- `slot.held && t <= slot.expiry && slot.mutated_since_renewal`
abbrev pub wants_extension : ℤ → Slot → Bool
wants_extension now slot = slot.held && not (ltb_ℤ slot.expiry now) && slot.mutated_since_renewal

unfoldable pub handles_of_slots : ℤ → Map ℕ Slot → List ℕ
handles_of_slots now [] = []
handles_of_slots now ((handle, slot) ∷ slots) =
    let rest = handles_of_slots now slots in
    if wants_extension now slot then handle ∷ rest else rest

unfoldable pub handles_to_extend : LeaseTable → ℤ → List ℕ
handles_to_extend t now = handles_of_slots now t.slots
