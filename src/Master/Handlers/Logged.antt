-- ===== src/Master/Handlers/Logged.antt =====
-- Every critical section of src/master/master.cc logs what it does to the files and the next handle.
use gfs_impl_cpp.Base.{
  Bool-cases, Option-cases, length, ℕ, ◌+◌, refl, inl, inr, ◌||◌, List, [], ◌∷◌,
}
use gfs_impl_cpp.Base.Bytes.{Bytes, bytes_key}
use gfs_impl_cpp.Base.Int.{ℤ}
use gfs_impl_cpp.Base.Map.{nat_key}
use gfs_impl_cpp.Common.Config.{Config}
use gfs_impl_cpp.Master.ChunkTable
use gfs_impl_cpp.Master.ChunkTable.{ChunkTable}
use gfs_impl_cpp.Master.Namespace
use gfs_impl_cpp.Common.Paths.{is_hidden_path}
use gfs_impl_cpp.Master.Registry.{Servers}
use gfs_impl_cpp.Master.State.{
  MasterState, creates, removes, renames, snapshot, alloc_handle, add_chunk, replace_chunk,
  drop_chunk, apply, apply_drop_chunk,
}
use gfs_impl_cpp.Master.LeaseManager.{is_valid, is_pending_expiry}
use gfs_impl_cpp.Master.Handlers.{
  Master, log, create_section, remove_section, free_hidden_name, rename_section, snapshot_section,
}
use gfs_impl_cpp.Master.Handlers.Chunks.{alloc_section, add_section, copy_section, too_few}
use gfs_impl_cpp.Master.Handlers.Holders.{holder_section}
use gfs_impl_cpp.Master.Handlers.Beats.{beat_section, heart_beat}
use gfs_impl_cpp.Master.Handlers.Gc.{gc_remove, gc_collect, drop_orphans, sweep_dead}
use gfs_impl_cpp.Master.Handlers.Replay.{
  SameFiles, apply_all, IsLogged, IsLogged-append, IsLogged-log,
}
use gfs_impl_cpp.Master.Handlers.Runs.{
  Action, removed, start, bumps, perform, run, creates_file, removes_file, renames_file, snapshots,
  allocates, adds_chunk, copies_chunk, finds_holder, leases, beats, sweeps, collects_file,
  collects_chunks,
}
use gfs_impl_cpp.Master.Handlers.Bumped.{bumps-same, KeepsFiles, beat_section-KeepsFiles}

module _ (base : MasterState) (m : Master) (l : IsLogged base m) where
  create_section-IsLogged : (path : Bytes) → IsLogged base (create_section m path).0
  unfolding create_section
  create_section-IsLogged path =
      elim (Bool-cases
        (Namespace.exists m.state.files path || Namespace.is_directory m.state.files path)) [
          | inl e ↦ rw (e, create_section) l
          | inr e ↦ elim (Bool-cases (Namespace.has_file_ancestor m.state.files path)) [
            | inl a ↦ rw (e, create_section, a) l
            | inr a ↦
                rw (e, create_section, a)
                  (unfold apply in IsLogged-log base m m.state.chunks (creates path) l)
          ]
        ]

  remove_section-IsLogged :
      (path : Bytes) (now : ℤ) → IsLogged base (removed m (remove_section m path now))
  unfolding remove_section
  remove_section-IsLogged path now = elim (Bool-cases (Namespace.exists m.state.files path)) [
    | inr e ↦ rw (e, remove_section) l
    | inl e ↦ elim (Bool-cases (is_hidden_path path)) [
      | inl h ↦
          rw (e, remove_section, h)
            (unfold apply in IsLogged-log base m m.state.chunks (removes path) l)
      | inr h ↦
          elim (Option-cases (free_hidden_name (length m.state.files + 1) m.state.files path now)) [
            | inl f ↦ rw (e, remove_section, h, f) l
            | inr (hidden, f) ↦
                rw (e, remove_section, h, f)
                  (unfold apply in IsLogged-log base m m.state.chunks (renames path hidden) l)
          ]
    ]
  ]

  add_section-IsLogged :
      (config : Config) (path : Bytes) (index handle : ℕ) (created : List Bytes) (now : ℤ)
      → IsLogged base (add_section config m path index handle created now).0
  unfolding add_section
  add_section-IsLogged config path index handle created now =
      elim (Bool-cases (too_few config created)) [
        | inl e ↦ rw (e, add_section) l
        | inr e ↦
            rw (e, add_section)
              (unfold apply in IsLogged-log base m _ (add_chunk path index handle) l)
      ]

  copy_section-IsLogged :
      (config : Config) (path : Bytes) (index fresh : ℕ) (created : List Bytes) (now : ℤ)
      → IsLogged base (copy_section config m path index fresh created now).0
  unfolding copy_section
  copy_section-IsLogged config path index fresh created now =
      elim (Bool-cases (too_few config created)) [
        | inl e ↦ rw (e, copy_section) l
        | inr e ↦
            rw (e, copy_section)
              (unfold apply in IsLogged-log base m _ (replace_chunk path index fresh) l)
      ]

  snapshot_section-IsLogged :
      (config : Config) (source target : Bytes) (handles : List ℕ) (now : ℤ)
      → IsLogged base (snapshot_section config m source target handles now)
  unfolding snapshot_section
  snapshot_section-IsLogged config source target handles now =
      unfold apply in IsLogged-log base m _ (snapshot source target) l

  alloc_section-IsLogged : IsLogged base (alloc_section m).0
  unfolding alloc_section
  alloc_section-IsLogged =
      unfold apply in IsLogged-log base m m.state.chunks (alloc_handle m.state.next_handle) l

  gc_remove-IsLogged : (path : Bytes) → IsLogged base (gc_remove m path)
  unfolding gc_remove
  gc_remove-IsLogged path = elim (Bool-cases (Namespace.exists m.state.files path)) [
    | inl e ↦
        rw (e, gc_remove) (unfold apply in IsLogged-log base m m.state.chunks (removes path) l)
    | inr e ↦ rw (e, gc_remove) l
  ]

  holder_section-IsLogged :
      (config : Config) (handle : ℕ) (now : ℤ)
      → IsLogged base (holder_section config m handle now).0
  unfolding holder_section
  holder_section-IsLogged config handle now =
      elim (Option-cases (ChunkTable.find m.state.chunks handle)) [
        | inl e ↦ rw (e, holder_section) l
        | inr (meta, e) ↦ elim (Option-cases meta.lease) [
          | inl g ↦ rw (e, holder_section, g) l
          | inr (lease, g) ↦ elim (Bool-cases (is_valid config meta now)) [
            | inl v ↦ rw (e, holder_section, g, holder_section, v) l
            | inr v ↦ elim (Bool-cases (is_pending_expiry config meta now)) [
              | inl p ↦ rw (e, holder_section, g, holder_section, v, p) l
              | inr p ↦ rw (e, holder_section, g, holder_section, v, p) l
            ]
          ]
        ]
      ]

drop_orphans-IsLogged :
    (base : MasterState) (m : Master) (handles : List ℕ)
    → IsLogged base m
    → IsLogged base (drop_orphans m handles)
unfolding drop_orphans
drop_orphans-IsLogged base m [] l = l
drop_orphans-IsLogged base m (handle ∷ handles) l =
    drop_orphans-IsLogged base
      (log (record m { state = apply_drop_chunk m.state handle }) (drop_chunk handle)) handles
      (unfold apply in IsLogged-log base m m.state.chunks (drop_chunk handle) l)

perform-IsLogged :
    (config : Config) (base : MasterState) (action : Action) (m : Master)
    → IsLogged base m
    → IsLogged base (perform config action m)
unfolding perform
perform-IsLogged config base (creates_file path) m l = create_section-IsLogged base m l path
perform-IsLogged config base (removes_file path now) m l = remove_section-IsLogged base m l path now
perform-IsLogged config base (renames_file source target) m l =
    unfold rename_section apply in IsLogged-log base m m.state.chunks (renames source target) l
perform-IsLogged config base (snapshots source target handles now) m l =
    snapshot_section-IsLogged base m l config source target handles now
perform-IsLogged config base allocates m l = alloc_section-IsLogged base m l
perform-IsLogged config base (adds_chunk path index handle created now) m l =
    add_section-IsLogged base m l config path index handle created now
perform-IsLogged config base (copies_chunk path index handle created now) m l =
    copy_section-IsLogged base m l config path index handle created now
perform-IsLogged config base (finds_holder handle now) m l =
    holder_section-IsLogged base m l config handle now
perform-IsLogged config base (leases change versions) m l =
    IsLogged-append base (record m.state { chunks = change m.state.chunks }) m (bumps versions)
      (bumps-same m.state versions) l
perform-IsLogged config base (beats req now) m l =
    let b = beat_section config req now m.state.chunks in
    unfold heart_beat KeepsFiles in
    IsLogged-append base (record m.state { chunks = b.table }) m b.bumped
      (beat_section-KeepsFiles config req now m.state.chunks m.state) l
perform-IsLogged config base (sweeps now) m l = unfold sweep_dead in l
perform-IsLogged config base (collects_file path) m l = gc_remove-IsLogged base m l path
perform-IsLogged config base collects_chunks m l =
    unfold gc_collect in drop_orphans-IsLogged base m _ l

run-IsLogged :
    (config : Config) (base : MasterState) (actions : List Action) (m : Master)
    → IsLogged base m
    → IsLogged base (run config m actions)
unfolding run
run-IsLogged config base [] m l = l
run-IsLogged config base (action ∷ actions) m l =
    run-IsLogged config base actions (perform config action m)
      (perform-IsLogged config base action m l)

-- Whatever the handlers do from a state, in any order of their critical sections, replaying the
-- records that they logged from that state gives the files and the next handle that the master has.
pub apply_all-run :
    (config : Config) (s : MasterState) (registry : Servers) (actions : List Action)
    → SameFiles
        (apply_all s (run config (start s registry) actions).logged)
        (run config (start s registry) actions).state
apply_all-run config s registry actions =
    run-IsLogged config s actions (start s registry) (unfold apply_all in (refl, refl))
