-- ===== src/Master/Handlers/Meanwhile.antt =====
-- `Revoke` of src/master/lease_manager.cc among the critical sections of other threads.
use gfs_impl_cpp.Base.{Option-cases, ℕ, ◌≡◌, ◌≢◌, inl, inr, Bool, Option, some, List, [], ◌∷◌}
use gfs_impl_cpp.Base.Bytes.{Bytes, bytes_key}
use gfs_impl_cpp.Base.Int.{ℤ}
use gfs_impl_cpp.Base.Map.{nat_key}
use gfs_impl_cpp.Common.Config.{Config}
use gfs_impl_cpp.Common.Replica.{Replica}
use gfs_impl_cpp.Master.ChunkTable
use gfs_impl_cpp.Master.ChunkTable.{ChunkTable, ChunkMeta, add_location, erase_chunk}
use gfs_impl_cpp.Master.LeaseManager.{is_valid}
use gfs_impl_cpp.Master.LeaseManager.Revokes.{
  IsDeadAt, is_valid-IsDead, IsDeadAt-revoke_begin, IsDeadAt-revoke_end, revoke,
}
use gfs_impl_cpp.Base.Map.{Set}
use gfs_impl_cpp.Base.{All}
use gfs_impl_cpp.Master.LeaseManager.Grants.{Attempt, Round, settle, prepare_locked, clear_granting}
use gfs_impl_cpp.Master.LeaseManager.Revokes.{revoke_begin, revoke_end}
use gfs_impl_cpp.Master.Handlers.Beats.{HeartBeatRequest, beat_section}
use gfs_impl_cpp.Master.Handlers.Gc.{lose_servers}
use gfs_impl_cpp.Master.LeaseManager.Rounds.{table_after}
use gfs_impl_cpp.Base.{false}
use gfs_impl_cpp.Master.Handlers.Spared.{Spares, add_location-Spares}
use gfs_impl_cpp.Master.Handlers.Spared.Beats.{beat_section-Spares, lose_servers-Spares}
use gfs_impl_cpp.Master.Handlers.Spared.Sections.{
  edited, create-Spares, erase_chunk-Spares, edited-put-Spares, revoke_begin-Spares,
  revoke_end-Spares, prepare_locked-Spares, clear_granting-Spares, settle-Spares,
}

-- The critical sections that change the chunk table: heartbeats, sweeps, new chunks and locations, the
-- collection of a chunk, changed counts and versions, other revocations, and the sections of a grant.
pub data Section : Type 0 where
  beats : HeartBeatRequest → ℤ → Section
  sweeps : List Bytes → ℤ → Section
  creates : ℕ → ℕ → Section
  locates : ℕ → Bytes → ℤ → Section
  erases : ℕ → Section
  edits : ℕ → ℕ → ℕ → Bool → Section
  begins_revoke : ℕ → ℤ → Section
  ends_revoke : ℕ → Bytes → Bool → Section
  prepares : (Bytes → Option Replica) → ℕ → Section
  settles : Round → ℕ → Attempt → Section
  clears : ℕ → Section

unfoldable pub after : Config → ChunkTable → Section → ChunkTable
after config t (beats req now) = (beat_section config req now t).table
after config t (sweeps dead now) = (lose_servers config now dead t []).0
after config t (creates h version) = ChunkTable.create t h version
after config t (locates h server when) = (add_location t h server when).0
after config t (erases h) = erase_chunk t h
after config t (edits h version refcount pending) =
    edited t h version refcount pending (ChunkTable.find t h)
after config t (begins_revoke h now) = (revoke_begin config t h now).0
after config t (ends_revoke h primary answered) = (revoke_end t h primary answered).0
after config t (prepares resolve h) = (prepare_locked config resolve t h).0
after config t (settles round h attempt) = table_after (settle config round t h attempt)
after config t (clears h) = clear_granting t h

unfoldable pub run : Config → List Section → ChunkTable → ChunkTable
run config [] t = t
run config (section ∷ sections) t = run config sections (after config t section)

-- Not the section that gives this chunk a lease.
abbrev pub GrantsOther : ℕ → Section → Type 0
GrantsOther handle (settles round h attempt) = handle ≢ h
GrantsOther handle _ = Unit {0}

module _ (handle : ℕ) where
  after-Spares :
      (config : Config) (t : ChunkTable) (section : Section)
      → GrantsOther handle section
      → Spares handle t (after config t section)
  unfolding after
  after-Spares config t (beats req now) g = beat_section-Spares handle config req now t
  after-Spares config t (sweeps dead now) g = lose_servers-Spares handle config now dead t []
  after-Spares config t (creates h version) g = create-Spares handle t h version
  after-Spares config t (locates h server when) g = add_location-Spares handle t h server when
  after-Spares config t (erases h) g = erase_chunk-Spares handle t h
  after-Spares config t (edits h version refcount pending) g =
      edited-put-Spares handle t h version refcount pending
  after-Spares config t (begins_revoke h now) g = revoke_begin-Spares handle config t h now
  after-Spares config t (ends_revoke h primary answered) g =
      revoke_end-Spares handle t h primary answered
  after-Spares config t (prepares resolve h) g = prepare_locked-Spares handle config resolve t h
  after-Spares config t (settles round h attempt) g =
      settle-Spares handle config round t h attempt g
  after-Spares config t (clears h) g = clear_granting-Spares handle t h

  run-Spares :
      (config : Config) (sections : List Section) (t : ChunkTable)
      → All (GrantsOther handle) sections
      → Spares handle t (run config sections t)
  unfolding run
  run-Spares config [] t g d = d
  run-Spares config (section ∷ sections) t g d =
      run-Spares config sections (after config t section) g.1 (after-Spares config t section g.0 d)

  IsDeadAt-revoke :
      (config : Config) (meanwhile : List Section) (answers : Bytes → Bool) (t : ChunkTable)
      (unreachable : Set Bytes) (now : ℤ)
      → All (GrantsOther handle) meanwhile
      → IsDeadAt handle (revoke config (run config meanwhile) answers t unreachable handle now).0
  unfolding revoke
  IsDeadAt-revoke config meanwhile answers t unreachable now g =
      let begun = revoke_begin config t handle now in
      let dead = IsDeadAt-revoke_begin config t handle now in
      elim (Option-cases begun.1) [
        | inl n ↦ rw (n, revoke) dead
        | inr (lease, l) ↦
            rw (l, revoke)
              (IsDeadAt-revoke_end (run config meanwhile begun.0) handle lease.primary _
                (run-Spares config meanwhile begun.0 g dead))
      ]

-- Whether the primary answers or not, a chunk's lease is not valid at any time once `Revoke` returned, if
-- no grant of this chunk settles while the primary is called. Other critical sections may run
-- meanwhile, any number of them in any order: heartbeats with extensions and reports on this chunk, sweeps,
-- the collection or the making of chunks, other revocations, also of this chunk, the first section of
-- a grant of this chunk, and whole grants of other chunks.
pub is_valid-revoke :
    (config : Config) (meanwhile : List Section) (answers : Bytes → Bool) (t : ChunkTable)
    (unreachable : Set Bytes) (handle : ℕ) (now later : ℤ) (meta : ChunkMeta)
    → All (GrantsOther handle) meanwhile
    → ChunkTable.find
        (revoke config (run config meanwhile) answers t unreachable handle now).0
        handle
      ≡ some meta
    → is_valid config meta later ≡ false
is_valid-revoke config meanwhile answers t unreachable handle now later meta g e =
    is_valid-IsDead config meta later
      (IsDeadAt-revoke handle config meanwhile answers t unreachable now g meta e)
