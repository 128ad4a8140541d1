-- ===== src/Master/Handlers/Replay.antt =====
-- What the log keeps of src/master/master.cc: replaying the records that the handlers give to
-- `OpLog::Append` brings back the files and the next handle.
use gfs_impl_cpp.Base.{
  ◌==◌, Bool-cases, Option-cases, length, get_elem?, ℕ, ◌≡◌, refl, sym, ap, ◌∙◌, inl, inr, not,
  ◌&&◌, List, [], ◌∷◌, ◌++◌,
}
use gfs_impl_cpp.Base.Bytes.{Bytes, bytes_key}
use gfs_impl_cpp.Base.Map.{nat_key}
use gfs_impl_cpp.Master.Handlers.{Master, log}
use gfs_impl_cpp.Master.ChunkTable
use gfs_impl_cpp.Master.ChunkTable.{ChunkTable}
use gfs_impl_cpp.Master.Namespace
use gfs_impl_cpp.Master.Namespace.{Files}
use gfs_impl_cpp.Master.State.{
  MasterState, LogRecord, creates, renames, removes, alloc_handle, add_chunk, replace_chunk,
  bump_version, snapshot, drop_chunk, body_not_set, apply, apply_create, apply_rename, apply_remove,
  apply_alloc_handle, apply_add_chunk, apply_replace_chunk, apply_bump_version, apply_snapshot,
  apply_drop_chunk, copy_all, copied_path, ref_all, append_at, replace_at,
}

-- The files and the next handle, all but the chunks.
abbrev pub SameFiles : MasterState → MasterState → Type 0
SameFiles s s' = (s.files ≡ s'.files) × (s.next_handle ≡ s'.next_handle)

-- A file's records do not look at the chunks.
module _ (s : MasterState) (t : ChunkTable) where
  abbrev other : MasterState
  other = record s { chunks = t }

  apply_remove-other : (path : Bytes) → SameFiles (apply_remove s path) (apply_remove other path)
  unfolding apply_remove
  apply_remove-other path = elim (Option-cases (Namespace.find s.files path)) [
    | inl e ↦ rw (e, apply_remove) (refl, refl)
    | inr (m, e) ↦ rw (e, apply_remove) (refl, refl)
  ]

  apply_rename-other :
      (source target : Bytes)
      → SameFiles (apply_rename s source target) (apply_rename other source target)
  unfolding apply_rename
  apply_rename-other source target =
      elim (Bool-cases
        (not (Namespace.exists s.files source) && not (Namespace.is_directory s.files source))) [
          | inl e ↦ rw (e, apply_rename) (refl, refl)
          | inr e ↦ rw (e, apply_rename) (refl, refl)
        ]

  apply_replace_chunk-other :
      (path : Bytes) (index handle : ℕ)
      → SameFiles
          (apply_replace_chunk s path index handle)
          (apply_replace_chunk other path index handle)
  unfolding apply_replace_chunk
  apply_replace_chunk-other path index handle = elim (Option-cases (Namespace.find s.files path)) [
    | inl e ↦ rw (e, apply_replace_chunk) (refl, refl)
    | inr (m, e) ↦ elim (Option-cases (get_elem? m.chunks index)) [
      | inl g ↦ rw (e, apply_replace_chunk, g, apply_replace_chunk) (refl, refl)
      | inr (old, g) ↦ elim (Bool-cases (old == handle)) [
        | inl q ↦ rw (e, apply_replace_chunk, g, apply_replace_chunk, q) (refl, refl)
        | inr q ↦
            rw (e, apply_replace_chunk, g, apply_replace_chunk, q)
              (unfold replace_at apply_alloc_handle in (refl, refl))
      ]
    ]
  ]

  apply_add_chunk-other :
      (path : Bytes) (index handle : ℕ)
      → SameFiles (apply_add_chunk s path index handle) (apply_add_chunk other path index handle)
  unfolding apply_add_chunk
  apply_add_chunk-other path index handle = elim (Option-cases (Namespace.find s.files path)) [
    | inl e ↦ rw (e, apply_add_chunk) (refl, refl)
    | inr (m, e) ↦ elim (Option-cases (get_elem? m.chunks index)) [
      | inr (old, g) ↦ elim (Bool-cases (old == handle)) [
        | inl q ↦ rw (e, apply_add_chunk, g, apply_add_chunk, q) (refl, refl)
        | inr q ↦
            rw (e, apply_add_chunk, g, apply_add_chunk, q)
              (apply_replace_chunk-other path index handle)
      ]
      | inl g ↦ elim (Bool-cases (index == length m.chunks)) [
        | inl q ↦
            rw (e, apply_add_chunk, g, apply_add_chunk, q)
              (unfold append_at apply_alloc_handle in (refl, refl))
        | inr q ↦ rw (e, apply_add_chunk, g, apply_add_chunk, q) (refl, refl)
      ]
    ]
  ]

pub apply_bump_version-same :
    (s : MasterState) (handle version : ℕ) → SameFiles (apply_bump_version s handle version) s
unfolding apply_bump_version
apply_bump_version-same s handle version = elim (Option-cases (ChunkTable.find s.chunks handle)) [
  | inl e ↦ rw (e, apply_bump_version) (refl, refl)
  | inr (m, e) ↦ rw (e, apply_bump_version) (refl, refl)
]

copy_all-other :
    (s : MasterState) (t : ChunkTable) (source target : Bytes) (l : Files)
    → SameFiles (copy_all s source target l) (copy_all (record s { chunks = t }) source target l)
unfolding copy_all
copy_all-other s t source target [] = (refl, refl)
copy_all-other s t source target ((path, m) ∷ l) =
    elim (Bool-cases (Namespace.exists s.files (copied_path source target path))) [
      | inl e ↦ rw (copy_all, e) (copy_all-other s t source target l)
      | inr e ↦
          let s' : MasterState = record s {
            chunks = ref_all s.chunks m.chunks;
            files = (Namespace.insert_new s.files (copied_path source target path) m).0;
          } in
          rw (copy_all, e) (copy_all-other s' (ref_all t m.chunks) source target l)
    ]

pub apply-other :
    (s : MasterState) (t : ChunkTable) (r : LogRecord)
    → SameFiles (apply s r) (apply (record s { chunks = t }) r)
unfolding apply
apply-other s t (creates path) = unfold apply_create in (refl, refl)
apply-other s t (renames source target) = apply_rename-other s t source target
apply-other s t (removes path) = apply_remove-other s t path
apply-other s t (alloc_handle handle) = unfold apply_alloc_handle in (refl, refl)
apply-other s t (add_chunk path index handle) = apply_add_chunk-other s t path index handle
apply-other s t (replace_chunk path index handle) = apply_replace_chunk-other s t path index handle
apply-other s t (bump_version handle version) =
    let here = apply_bump_version-same s handle version in
    let there = apply_bump_version-same (record s { chunks = t }) handle version in
    (here.0 ∙ sym there.0, here.1 ∙ sym there.1)
apply-other s t (snapshot source target) =
    unfold apply_snapshot in copy_all-other s t source target _
apply-other s t (drop_chunk handle) = unfold apply_drop_chunk in (refl, refl)
apply-other s t body_not_set = (refl, refl)

SameFiles-apply :
    (s s' : MasterState) (r : LogRecord) → SameFiles s s' → SameFiles (apply s r) (apply s' r)
SameFiles-apply s s' r (e, n) =
    let o = apply-other s s'.chunks r in
    (
      o.0
          ∙ ap (λ (f : Files). (apply (record s { files = f; chunks = s'.chunks }) r).files) e
          ∙ ap (λ (k : ℕ). (apply (record s' { next_handle = k }) r).files) n,
      o.1
          ∙ ap (λ (f : Files). (apply (record s { files = f; chunks = s'.chunks }) r).next_handle) e
          ∙ ap (λ (k : ℕ). (apply (record s' { next_handle = k }) r).next_handle) n,
    )

-- Replaying a log.
unfoldable pub apply_all : MasterState → List LogRecord → MasterState
apply_all s [] = s
apply_all s (r ∷ rs) = apply_all (apply s r) rs

pub apply_all-append :
    (s : MasterState) (rs rs' : List LogRecord)
    → apply_all s (rs ++ rs') ≡ apply_all (apply_all s rs) rs'
unfolding apply_all
apply_all-append s [] rs' = refl
apply_all-append s (r ∷ rs) rs' = apply_all-append (apply s r) rs rs'

SameFiles-apply_all :
    (s s' : MasterState) (rs : List LogRecord)
    → SameFiles s s'
    → SameFiles (apply_all s rs) (apply_all s' rs)
unfolding apply_all
SameFiles-apply_all s s' [] e = e
SameFiles-apply_all s s' (r ∷ rs) e =
    SameFiles-apply_all (apply s r) (apply s' r) rs (SameFiles-apply s s' r e)

-- Replaying the log gives the files and the next handle.
abbrev pub IsLogged : MasterState → Master → Type 0
IsLogged base m = SameFiles (apply_all base m.logged) m.state

pub IsLogged-append :
    (base s : MasterState) (m : Master) (rs : List LogRecord)
    → SameFiles (apply_all m.state rs) s
    → IsLogged base m
    → IsLogged base (record m { state = s; logged = m.logged ++ rs })
IsLogged-append base s m rs e l =
    let replayed = SameFiles-apply_all (apply_all base m.logged) m.state rs l in
    rw (apply_all-append base m.logged rs) (replayed.0 ∙ e.0, replayed.1 ∙ e.1)

pub IsLogged-log :
    (base : MasterState) (m : Master) (t : ChunkTable) (r : LogRecord)
    → IsLogged base m
    → IsLogged base (log (record m { state = apply (record m.state { chunks = t }) r }) r)
IsLogged-log base m t r l =
    IsLogged-append base (apply (record m.state { chunks = t }) r) m (r ∷ [])
      (unfold apply_all in apply-other m.state t r) l
