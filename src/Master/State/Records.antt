-- ===== src/Master/State/Records.antt =====
-- What `MasterState::Apply` keeps, record by record.
use gfs_impl_cpp.Common.Paths.{root}
use gfs_impl_cpp.Master.Namespace.Totals.{IsFree}
use gfs_impl_cpp.Master.State.{
  MasterState, LogRecord, creates, renames, removes, alloc_handle, add_chunk, replace_chunk,
  bump_version, snapshot, drop_chunk, body_not_set, apply_alloc_handle, apply,
}
use gfs_impl_cpp.Master.State.Refcounts.{refs}
use gfs_impl_cpp.Base.{◌≡◌, ◌≢◌}
use gfs_impl_cpp.Base.Bytes.{bytes_key}
use gfs_impl_cpp.Base.Map.{nat_key}
use gfs_impl_cpp.Master.State.Counted.{
  IsCounted, IsSmall, apply_create-IsCounted, apply_remove-IsCounted, apply_rename-IsCounted,
  apply_add_chunk-IsCounted, apply_replace_chunk-IsCounted, apply_bump_version-IsCounted,
  apply_drop_chunk-IsCounted,
}
use gfs_impl_cpp.Master.State.Copied.{apply_snapshot-IsCounted}

-- What the master checks before it logs a record: a rename goes to a free path other than the root,
-- and a chunk is dropped when no file refers to it.
abbrev pub IsAllowed : MasterState → LogRecord → Type 0
IsAllowed s (renames source target) = (target ≢ root) × IsFree s.files target
IsAllowed s (drop_chunk handle) = refs handle s.files ≡ 0
IsAllowed s _ = Unit {0}

-- Each log record keeps the invariant: the files stay in order, and the count of every chunk stays
-- the number of times that files refer to it, as long as no count reaches 2^32. A rename must go to
-- a free path, and a dropped chunk must be one that no file refers to.
pub apply-IsCounted :
    (s : MasterState) (r : LogRecord)
    → IsAllowed s r
    → IsSmall (apply s r)
    → IsCounted s
    → IsCounted (apply s r)
unfolding apply
apply-IsCounted s (creates path) a small v = apply_create-IsCounted s path v
apply-IsCounted s (renames source target) a small v =
    apply_rename-IsCounted s source target a.0 a.1 v
apply-IsCounted s (removes path) a small v = apply_remove-IsCounted s path v
apply-IsCounted s (alloc_handle handle) a small v =
    unfold apply_alloc_handle in record { sorted = v.sorted; agree = v.agree }
apply-IsCounted s (add_chunk path index handle) a small v =
    apply_add_chunk-IsCounted s path index handle small v
apply-IsCounted s (replace_chunk path index handle) a small v =
    apply_replace_chunk-IsCounted s path index handle small v
apply-IsCounted s (bump_version handle version) a small v =
    apply_bump_version-IsCounted s handle version v
apply-IsCounted s (snapshot source target) a small v =
    apply_snapshot-IsCounted s source target small v
apply-IsCounted s (drop_chunk handle) a small v = apply_drop_chunk-IsCounted s handle a v
apply-IsCounted s body_not_set a small v = v
