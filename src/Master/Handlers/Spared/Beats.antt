-- ===== src/Master/Handlers/Spared/Beats.antt =====
-- The heartbeats and sweeps of src/master/master.cc leave no new lease on a chunk.
use gfs_impl_cpp.Base.{
  if◌then◌else◌, ltb, Bool-cases, Option-cases, ℕ, ◌≡◌, inl, inr, ◌+◌, ◌%◌, Bool, true, false, ◌||◌,
  ◌&&◌, some, List, [], ◌∷◌, ◌++◌,
}
use gfs_impl_cpp.Base.Bytes.{Bytes, bytes_key}
use gfs_impl_cpp.Base.Int.{ℤ}
use gfs_impl_cpp.Base.Map.{nat_key, Set, lookup, insert, contains}
use gfs_impl_cpp.Common.Config.{Config}
use gfs_impl_cpp.Master.ChunkTable
use gfs_impl_cpp.Master.ChunkTable.{
  ChunkTable, ChunkMeta, add_location, remove_location, held_by_server,
}
use gfs_impl_cpp.Master.State.{u64_mod}
use gfs_impl_cpp.Master.LeaseManager.{extend_locked}
use gfs_impl_cpp.Master.LeaseManager.Revokes.{IsDead, is_valid-IsDead}
use gfs_impl_cpp.Master.Handlers.Beats.{
  ChunkReport, HeartBeatRequest, Beat, valid_now, regrant_if, report_granting, report_stale,
  adopt_version, report_current, report_one, report_all, in_grace, miss_one, miss_all, corrupt_one,
  corrupt_all, extend_one, extend_all, beat_section,
}
use gfs_impl_cpp.Master.Handlers.Gc.{lose_all, lose_servers}
use gfs_impl_cpp.Master.Handlers.Spared.{
  Spares, put-Spares, remove_location-Spares, add_location-Spares,
}

module _ (handle : ℕ) where
  regrant_if-Spares :
      (config : Config) (now : ℤ) (changed : Bool) (h : ℕ) (b : Beat)
      → Spares handle b.table (regrant_if config now changed h b).table
  unfolding regrant_if
  regrant_if-Spares config now changed h b =
      elim (Bool-cases (changed && valid_now config now (ChunkTable.find b.table h))) [
        | inl c ↦ rw c (λ d. d)
        | inr c ↦ rw c (λ d. d)
      ]

  adopt_version-Spares :
      (report : ChunkReport) (meta : ChunkMeta) (b : Beat)
      → ChunkTable.find b.table report.handle ≡ some meta
      → Spares handle b.table (adopt_version report meta b).table
  unfolding adopt_version
  adopt_version-Spares report meta b f = elim (Bool-cases (ltb meta.version report.version)) [
    | inl c ↦ rw c (
        put-Spares handle b.table report.handle meta (record meta { version = report.version }) f
          (λ k. k))
    | inr c ↦ rw c (λ d. d)
  ]

  if-Spares :
      (t : ChunkTable) (c : Bool) (x y : Beat)
      → Spares handle t x.table
      → Spares handle t y.table
      → Spares handle t (if c then x else y).table
  if-Spares t true x y kx ky = kx
  if-Spares t false x y kx ky = ky

  report_granting-Spares :
      (server : Bytes) (now : ℤ) (report : ChunkReport) (meta : ChunkMeta) (b : Beat)
      → Spares handle b.table (report_granting server now report meta b).table
  unfolding report_granting
  report_granting-Spares server now report meta b =
      if-Spares b.table (ltb ((report.version + 1) % u64_mod) meta.version) _ _
        (remove_location-Spares handle b.table report.handle server)
        (add_location-Spares handle b.table report.handle server now)

  report_current-Spares :
      (config : Config) (server : Bytes) (now : ℤ) (report : ChunkReport) (meta : ChunkMeta)
      (b : Beat)
      → ChunkTable.find b.table report.handle ≡ some meta
      → Spares handle b.table (report_current config server now report meta b).table
  unfolding report_current
  report_current-Spares config server now report meta b f d =
      let b' = adopt_version report meta b in
      let added = add_location b'.table report.handle server now in
      let b'' : Beat = record b' {
        table = added.0;
        reported = insert report.handle tt b.reported;
      } in
      regrant_if-Spares config now added.1 report.handle b'' (
        add_location-Spares handle b'.table report.handle server now
          (adopt_version-Spares report meta b f d))

  report_stale-Spares :
      (config : Config) (server : Bytes) (now : ℤ) (report : ChunkReport) (b : Beat)
      → Spares handle b.table (report_stale config server now report b).table
  unfolding report_stale
  report_stale-Spares config server now report b d =
      let removed = remove_location b.table report.handle server in
      let b' : Beat = record b { table = removed.0; deletes = b.deletes ++ report.handle ∷ [] } in
      regrant_if-Spares config now removed.1 report.handle b'
        (remove_location-Spares handle b.table report.handle server d)

  report_one-Spares :
      (config : Config) (server : Bytes) (now : ℤ) (report : ChunkReport) (b : Beat)
      → Spares handle b.table (report_one config server now report b).table
  unfolding report_one
  report_one-Spares config server now report b =
      elim (Option-cases (ChunkTable.find b.table report.handle)) [
        | inl n ↦ rw (n, report_one) (λ d. d)
        | inr (meta, f) ↦
            rw (f, report_one)
              (if-Spares b.table meta.granting _ _ (report_granting-Spares server now report meta b)
                (if-Spares b.table (ltb report.version meta.version) _ _
                  (report_stale-Spares config server now report b)
                  (report_current-Spares config server now report meta b f)))
      ]

  miss_one-Spares :
      (config : Config) (server : Bytes) (now : ℤ) (h : ℕ) (b : Beat)
      → Spares handle b.table (miss_one config server now h b).table
  unfolding miss_one
  miss_one-Spares config server now h b = elim (Option-cases (ChunkTable.find b.table h)) [
    | inl n ↦ rw (n, miss_one) (λ d. d)
    | inr (meta, f) ↦
        elim (Bool-cases
          (contains h b.reported || in_grace config now (lookup server meta.locations))) [
            | inl c ↦ rw (f, miss_one, c) (λ d. d)
            | inr c ↦
                rw (f, miss_one, c)
                  (λ d.
                    regrant_if-Spares config now true h _
                      (remove_location-Spares handle b.table h server d))
          ]
  ]

  corrupt_one-Spares :
      (config : Config) (server : Bytes) (now : ℤ) (h : ℕ) (b : Beat)
      → Spares handle b.table (corrupt_one config server now h b).table
  unfolding corrupt_one
  corrupt_one-Spares config server now h b = elim (Option-cases (ChunkTable.find b.table h)) [
    | inl n ↦ rw (n, corrupt_one) (λ d. d)
    | inr (meta, f) ↦
        rw (f, corrupt_one)
          (λ d.
            regrant_if-Spares config now true h _
              (remove_location-Spares handle b.table h server d))
  ]

  IsDead-extend_locked :
      (config : Config) (meta : ChunkMeta) (server : Bytes) (now : ℤ)
      → IsDead meta.lease
      → IsDead (extend_locked config meta server now).0.lease
  unfolding extend_locked
  IsDead-extend_locked config meta server now d = elim (Option-cases meta.lease) [
    | inl n ↦ rw (n, extend_locked) d
    | inr (lease, l) ↦
        let invalid = is_valid-IsDead config meta now d in rw (l, extend_locked, invalid) d
  ]

  extend_one-Spares :
      (config : Config) (server : Bytes) (now : ℤ) (h : ℕ) (b : Beat)
      → Spares handle b.table (extend_one config server now h b).table
  unfolding extend_one
  extend_one-Spares config server now h b = elim (Option-cases (ChunkTable.find b.table h)) [
    | inl n ↦ rw (n, extend_one) (λ d. d)
    | inr (meta, f) ↦ elim (Bool-cases (extend_locked config meta server now).1) [
      | inl c ↦
          rw (f, extend_one, c)
            (put-Spares handle b.table h meta (extend_locked config meta server now).0 f
              (IsDead-extend_locked config meta server now))
      | inr c ↦ rw (f, extend_one, c) (λ d. d)
    ]
  ]

  report_all-Spares :
      (config : Config) (server : Bytes) (now : ℤ) (reports : List ChunkReport) (b : Beat)
      → Spares handle b.table (report_all config server now reports b).table
  unfolding report_all
  report_all-Spares config server now [] b d = d
  report_all-Spares config server now (report ∷ reports) b d =
      report_all-Spares config server now reports (report_one config server now report b)
        (report_one-Spares config server now report b d)

  miss_all-Spares :
      (config : Config) (server : Bytes) (now : ℤ) (known : Set ℕ) (b : Beat)
      → Spares handle b.table (miss_all config server now known b).table
  unfolding miss_all
  miss_all-Spares config server now [] b d = d
  miss_all-Spares config server now ((h, _) ∷ known) b d =
      miss_all-Spares config server now known (miss_one config server now h b)
        (miss_one-Spares config server now h b d)

  corrupt_all-Spares :
      (config : Config) (server : Bytes) (now : ℤ) (handles : List ℕ) (b : Beat)
      → Spares handle b.table (corrupt_all config server now handles b).table
  unfolding corrupt_all
  corrupt_all-Spares config server now [] b d = d
  corrupt_all-Spares config server now (h ∷ handles) b d =
      corrupt_all-Spares config server now handles (corrupt_one config server now h b)
        (corrupt_one-Spares config server now h b d)

  extend_all-Spares :
      (config : Config) (server : Bytes) (now : ℤ) (handles : List ℕ) (b : Beat)
      → Spares handle b.table (extend_all config server now handles b).table
  unfolding extend_all
  extend_all-Spares config server now [] b d = d
  extend_all-Spares config server now (h ∷ handles) b d =
      extend_all-Spares config server now handles (extend_one config server now h b)
        (extend_one-Spares config server now h b d)

  pub beat_section-Spares :
      (config : Config) (req : HeartBeatRequest) (now : ℤ) (t : ChunkTable)
      → Spares handle t (beat_section config req now t).table
  unfolding beat_section
  beat_section-Spares config req now t d =
      let server = req.chunkserver_id in
      extend_all-Spares config server now req.lease_extension_requests _ (
        corrupt_all-Spares config server now req.corrupt _ (
          miss_all-Spares config server now (held_by_server t server) _
            (report_all-Spares config server now req.chunks _ d)))

  lose_all-Spares :
      (config : Config) (server : Bytes) (now : ℤ) (handles : Set ℕ) (t : ChunkTable)
      (regrants : List ℕ)
      → Spares handle t (lose_all config server now handles t regrants).0
  unfolding lose_all
  lose_all-Spares config server now [] t regrants d = d
  lose_all-Spares config server now ((h, _) ∷ handles) t regrants d =
      lose_all-Spares config server now handles (remove_location t h server).0 _
        (remove_location-Spares handle t h server d)

  pub lose_servers-Spares :
      (config : Config) (now : ℤ) (dead : List Bytes) (t : ChunkTable) (regrants : List ℕ)
      → Spares handle t (lose_servers config now dead t regrants).0
  unfolding lose_servers
  lose_servers-Spares config now [] t regrants d = d
  lose_servers-Spares config now (id ∷ dead) t regrants d =
      let lost = lose_all config id now (held_by_server t id) t regrants in
      lose_servers-Spares config now dead lost.0 lost.1
        (lose_all-Spares config id now (held_by_server t id) t regrants d)
