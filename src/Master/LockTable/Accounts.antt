-- ===== src/Master/LockTable/Accounts.antt =====
-- What the steps of `LockOne` and `UnlockOne` of src/master/lock_table.cc do to the counts of an entry.
use gfs_impl_cpp.Base.{ℕ, ◌+◌, ◌-◌, ◌≡◌, Bool, true, false, arith}
use gfs_impl_cpp.Base.Bytes.{bytes_key}
use gfs_impl_cpp.Base.Map.{nat_key}
use gfs_impl_cpp.Master.LockTable.{
  LockMode, read_lock, write_lock, Entry, fresh_entry, blocked, waits, wakes, takes, gives,
}
use gfs_impl_cpp.Master.LockTable.System.{reads_one, writes_one}

abbrev pub as_count : Bool → ℕ
as_count true = 1
as_count false = 0

-- The entry of a path counts the requests for it, and a writer excludes all readers.
pub record Agrees (e : Entry) (readers writers waiting_readers waiting_writers : ℕ) : Type 0 where
  pub readers_agree : e.readers ≡ readers
  pub writer_agrees : as_count e.writer ≡ writers
  pub waiting_agree : e.waiting_writers ≡ waiting_writers
  pub refs_agree : e.refs ≡ readers + writers + waiting_readers + waiting_writers
  pub alone : e.writer ≡ true → readers ≡ 0

pub takes_first :
    (mode : LockMode) (e : Entry) (a b c d : ℕ)
    → Agrees e a b c d
    → blocked mode (record e { refs = e.refs + 1 }) ≡ false
    → Agrees
        (takes mode (record e { refs = e.refs + 1 }))
        (reads_one mode + a)
        (writes_one mode + b)
        c
        d
takes_first read_lock e a b c d g h = record {
  readers_agree = ground arith;
  writer_agrees = ground arith;
  waiting_agree = ground arith;
  refs_agree = ground arith;
  alone = λ w. ground arith;
}
takes_first write_lock e a b c d g h = record {
  readers_agree = ground arith;
  writer_agrees = ground arith;
  waiting_agree = ground arith;
  refs_agree = ground arith;
  alone = λ w. ground arith;
}

pub waits_first :
    (mode : LockMode) (e : Entry) (a b c d : ℕ)
    → Agrees e a b c d
    → Agrees
        (waits mode (record e { refs = e.refs + 1 }))
        a
        b
        (reads_one mode + c)
        (writes_one mode + d)
waits_first read_lock e a b c d g = record {
  readers_agree = ground arith;
  writer_agrees = ground arith;
  waiting_agree = ground arith;
  refs_agree = ground arith;
  alone = λ w. ground arith;
}
waits_first write_lock e a b c d g = record {
  readers_agree = ground arith;
  writer_agrees = ground arith;
  waiting_agree = ground arith;
  refs_agree = ground arith;
  alone = λ w. ground arith;
}

pub takes_again :
    (mode : LockMode) (e : Entry) (a b c d : ℕ)
    → Agrees e a b (reads_one mode + c) (writes_one mode + d)
    → blocked mode (wakes mode e) ≡ false
    → Agrees (takes mode (wakes mode e)) (reads_one mode + a) (writes_one mode + b) c d
takes_again read_lock e a b c d g h = record {
  readers_agree = ground arith;
  writer_agrees = ground arith;
  waiting_agree = ground arith;
  refs_agree = ground arith;
  alone = λ w. ground arith;
}
takes_again write_lock e a b c d g h = record {
  readers_agree = ground arith;
  writer_agrees = ground arith;
  waiting_agree = ground arith;
  refs_agree = ground arith;
  alone = λ w. ground arith;
}

pub waits_again :
    (mode : LockMode) (e : Entry) (a b c d : ℕ)
    → Agrees e a b (reads_one mode + c) (writes_one mode + d)
    → Agrees (waits mode (wakes mode e)) a b (reads_one mode + c) (writes_one mode + d)
waits_again read_lock e a b c d g = record {
  readers_agree = ground arith;
  writer_agrees = ground arith;
  waiting_agree = ground arith;
  refs_agree = ground arith;
  alone = λ w. ground arith;
}
waits_again write_lock e a b c d g = record {
  readers_agree = ground arith;
  writer_agrees = ground arith;
  waiting_agree = ground arith;
  refs_agree = ground arith;
  alone = λ w. ground arith;
}

pub gives_back :
    (mode : LockMode) (e : Entry) (a b c d : ℕ)
    → Agrees e (reads_one mode + a) (writes_one mode + b) c d
    → Agrees (record (gives mode e) { refs = e.refs - 1 }) a b c d
gives_back read_lock e a b c d g = record {
  readers_agree = ground arith;
  writer_agrees = ground arith;
  waiting_agree = ground arith;
  refs_agree = ground arith;
  alone = λ w. ground arith;
}
gives_back write_lock e a b c d g = record {
  readers_agree = ground arith;
  writer_agrees = ground arith;
  waiting_agree = ground arith;
  refs_agree = ground arith;
  alone = λ w. ground arith;
}

pub erased : (e : Entry) (a b c d : ℕ) → Agrees e a b c d → e.refs ≡ 0 → Agrees fresh_entry a b c d
erased e a b c d g z = record {
  readers_agree = omega (arith, g.refs_agree, z);
  writer_agrees = omega (arith, g.refs_agree, z);
  waiting_agree = omega (arith, g.refs_agree, z);
  refs_agree = omega (arith, g.refs_agree, z);
  alone = λ w. omega (arith, g.refs_agree, z);
}

pub no_entry :
    (mode : LockMode) (a b c d : ℕ)
    → Agrees fresh_entry (reads_one mode + a) (writes_one mode + b) c d
    → ⊥
no_entry read_lock a b c d g = omega (arith, g.refs_agree)
no_entry write_lock a b c d g = omega (arith, g.refs_agree)
