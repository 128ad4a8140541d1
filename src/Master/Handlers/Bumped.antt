-- ===== src/Master/Handlers/Bumped.antt =====
-- The records of `Master::HeartBeat` of src/master/master.cc: only new versions of chunks.
use gfs_impl_cpp.Base.{
  ltb, if◌then◌else◌, Bool-cases, Option-cases, ℕ, ◌≡◌, refl, ◌∙◌, inl, inr, Bool, true, false,
  ◌||◌, List, [], ◌∷◌, arith,
}
use gfs_impl_cpp.Base.Bytes.{Bytes, bytes_key}
use gfs_impl_cpp.Base.Int.{ℤ}
use gfs_impl_cpp.Base.Map.{nat_key, Set, lookup, contains}
use gfs_impl_cpp.Common.Config.{Config}
use gfs_impl_cpp.Master.ChunkTable
use gfs_impl_cpp.Master.ChunkTable.{
  ChunkTable, ChunkMeta, add_location, remove_location, held_by_server,
}
use gfs_impl_cpp.Master.State.{MasterState, LogRecord, apply, apply_bump_version}
use gfs_impl_cpp.Master.Handlers.Beats.{
  ChunkReport, HeartBeatRequest, Beat, regrant_if, report_granting, report_stale, report_current,
  report_one, report_all, adopt_version, miss_one, miss_all, in_grace, corrupt_one, corrupt_all,
  extend_one, extend_all, beat_section,
}
use gfs_impl_cpp.Master.Handlers.Replay.{
  SameFiles, apply_all-append, apply_all, apply_bump_version-same,
}
use gfs_impl_cpp.Master.Handlers.Runs.{bumps}

pub bumps-same :
    (s : MasterState) (versions : List (ℕ × ℕ)) → SameFiles (apply_all s (bumps versions)) s
unfolding apply_all apply
bumps-same s [] = (refl, refl)
bumps-same s ((handle, version) ∷ versions) =
    let rest = bumps-same (apply_bump_version s handle version) versions in
    let one = apply_bump_version-same s handle version in (rest.0 ∙ one.0, rest.1 ∙ one.1)

-- The records of a heartbeat leave the files alone.
unfoldable pub KeepsFiles : List LogRecord → Type 0
KeepsFiles rs = (s : MasterState) → SameFiles (apply_all s rs) s

if-KeepsFiles :
    (c : Bool) (b b' : Beat)
    → KeepsFiles b.bumped
    → KeepsFiles b'.bumped
    → KeepsFiles (if c then b else b').bumped
if-KeepsFiles true b b' k k' = k
if-KeepsFiles false b b' k k' = k'

adopt_version-KeepsFiles :
    (report : ChunkReport) (meta : ChunkMeta) (b : Beat)
    → KeepsFiles b.bumped
    → KeepsFiles (adopt_version report meta b).bumped
unfolding adopt_version KeepsFiles
adopt_version-KeepsFiles report meta b k s = elim (Bool-cases (ltb meta.version report.version)) [
  | inr e ↦ rw (e, adopt_version) (k s)
  | inl e ↦
      let one = bumps-same (apply_all s b.bumped) ((report.handle, report.version) ∷ []) in
      rw
        (
          e,
          adopt_version,
          apply_all-append s b.bumped (bumps ((report.handle, report.version) ∷ [])),
        )
        (one.0 ∙ (k s).0, one.1 ∙ (k s).1)
]

module _ (config : Config) (server : Bytes) (now : ℤ) where
  bumped-regrant_if :
      (changed : Bool) (handle : ℕ) (b : Beat)
      → (regrant_if config now changed handle b).bumped ≡ b.bumped
  unfolding regrant_if
  bumped-regrant_if changed handle b = ground (arith)

  bumped-report_granting :
      (report : ChunkReport) (meta : ChunkMeta) (b : Beat)
      → (report_granting server now report meta b).bumped ≡ b.bumped
  unfolding report_granting
  bumped-report_granting report meta b = ground (arith)

  bumped-miss_one :
      (handle : ℕ) (b : Beat) → (miss_one config server now handle b).bumped ≡ b.bumped
  unfolding miss_one
  bumped-miss_one handle b = elim (Option-cases (ChunkTable.find b.table handle)) [
    | inl e ↦ rw (e, miss_one) refl
    | inr (meta, e) ↦
        elim (Bool-cases
          (contains handle b.reported || in_grace config now (lookup server meta.locations))) [
            | inl g ↦ rw (e, miss_one, g) refl
            | inr g ↦ rw (e, miss_one, g) (bumped-regrant_if true handle _)
          ]
  ]

  bumped-corrupt_one :
      (handle : ℕ) (b : Beat) → (corrupt_one config server now handle b).bumped ≡ b.bumped
  unfolding corrupt_one
  bumped-corrupt_one handle b = elim (Option-cases (ChunkTable.find b.table handle)) [
    | inl e ↦ rw (e, corrupt_one) refl
    | inr (meta, e) ↦ rw (e, corrupt_one) (bumped-regrant_if true handle _)
  ]

  bumped-extend_one :
      (handle : ℕ) (b : Beat) → (extend_one config server now handle b).bumped ≡ b.bumped
  unfolding extend_one
  bumped-extend_one handle b = elim (Option-cases (ChunkTable.find b.table handle)) [
    | inl e ↦ rw (e, extend_one) refl
    | inr (meta, e) ↦ rw (e, extend_one) (ground (arith))
  ]

  report_stale-KeepsFiles :
      (report : ChunkReport) (b : Beat)
      → KeepsFiles b.bumped
      → KeepsFiles (report_stale config server now report b).bumped
  unfolding report_stale
  report_stale-KeepsFiles report b k =
      let removed = remove_location b.table report.handle server in
      rw (bumped-regrant_if removed.1 report.handle _) k

  report_current-KeepsFiles :
      (report : ChunkReport) (meta : ChunkMeta) (b : Beat)
      → KeepsFiles b.bumped
      → KeepsFiles (report_current config server now report meta b).bumped
  unfolding report_current
  report_current-KeepsFiles report meta b k =
      let added = add_location (adopt_version report meta b).table report.handle server now in
      rw (bumped-regrant_if added.1 report.handle _) (adopt_version-KeepsFiles report meta b k)

  report_one-KeepsFiles :
      (report : ChunkReport) (b : Beat)
      → KeepsFiles b.bumped
      → KeepsFiles (report_one config server now report b).bumped
  unfolding report_one
  report_one-KeepsFiles report b k = elim (Option-cases (ChunkTable.find b.table report.handle)) [
    | inl e ↦ rw (e, report_one) k
    | inr (meta, e) ↦
        rw (e, report_one)
          (if-KeepsFiles meta.granting _ _ (rw (bumped-report_granting report meta b) k) (
            if-KeepsFiles (ltb report.version meta.version) _ _ (report_stale-KeepsFiles report b k)
              (report_current-KeepsFiles report meta b k)))
  ]

  report_all-KeepsFiles :
      (reports : List ChunkReport) (b : Beat)
      → KeepsFiles b.bumped
      → KeepsFiles (report_all config server now reports b).bumped
  unfolding report_all
  report_all-KeepsFiles [] b k = k
  report_all-KeepsFiles (report ∷ reports) b k =
      report_all-KeepsFiles reports (report_one config server now report b)
        (report_one-KeepsFiles report b k)

  bumped-miss_all :
      (known : Set ℕ) (b : Beat) → (miss_all config server now known b).bumped ≡ b.bumped
  unfolding miss_all
  bumped-miss_all [] b = refl
  bumped-miss_all ((handle, _) ∷ known) b =
      bumped-miss_all known (miss_one config server now handle b) ∙ bumped-miss_one handle b

  bumped-corrupt_all :
      (handles : List ℕ) (b : Beat) → (corrupt_all config server now handles b).bumped ≡ b.bumped
  unfolding corrupt_all
  bumped-corrupt_all [] b = refl
  bumped-corrupt_all (handle ∷ handles) b =
      bumped-corrupt_all handles (corrupt_one config server now handle b)
      ∙ bumped-corrupt_one handle b

  bumped-extend_all :
      (handles : List ℕ) (b : Beat) → (extend_all config server now handles b).bumped ≡ b.bumped
  unfolding extend_all
  bumped-extend_all [] b = refl
  bumped-extend_all (handle ∷ handles) b =
      bumped-extend_all handles (extend_one config server now handle b) ∙ bumped-extend_one handle b

pub beat_section-KeepsFiles :
    (config : Config) (req : HeartBeatRequest) (now : ℤ) (t : ChunkTable)
    → KeepsFiles (beat_section config req now t).bumped
unfolding beat_section
beat_section-KeepsFiles config req now t =
    let server = req.chunkserver_id in
    rw
      (
        bumped-extend_all config server now req.lease_extension_requests _,
        bumped-corrupt_all config server now req.corrupt _,
        bumped-miss_all config server now (held_by_server t server) _,
      )
      (report_all-KeepsFiles config server now req.chunks _
        (unfold KeepsFiles apply_all in λ s. (refl, refl)))
