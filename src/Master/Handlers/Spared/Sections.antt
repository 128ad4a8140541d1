-- ===== src/Master/Handlers/Spared/Sections.antt =====
-- The sections of src/master/lease_manager.cc and the operations of src/master/chunk_table.cc that leave no
-- new lease on a chunk.
use gfs_impl_cpp.Base.{
  Bool-cases, Option-cases, ℕ, ◌≡◌, refl, sym, ◌∙◌, ◌≢◌, inl, inr, if_pos, if_neg, Bool, ◌&&◌,
  Option, none, some, [], ◌∷◌, arith, ℕ_discrete,
}
use gfs_impl_cpp.Base.Bytes.{Bytes, bytes_key}
use gfs_impl_cpp.Base.Int.{ℤ}
use gfs_impl_cpp.Base.Map.{nat_key, lookup, lookup-insert, lookup-erase}
use gfs_impl_cpp.Common.Config.{Config}
use gfs_impl_cpp.Common.Paths.{bytes_eq}
use gfs_impl_cpp.Common.Replica.{Replica}
use gfs_impl_cpp.Master.ChunkTable
use gfs_impl_cpp.Master.ChunkTable.{ChunkTable, ChunkMeta, erase_chunk}
use gfs_impl_cpp.Master.LeaseManager.{is_current}
use gfs_impl_cpp.Master.ChunkTable.{fresh_meta}
use gfs_impl_cpp.Master.LeaseManager.Grants.{attempt_for, live_locations}
use gfs_impl_cpp.Master.ChunkTable.{is_empty}
use gfs_impl_cpp.Base.Map.{Set}
use gfs_impl_cpp.Base.{is_some}
use gfs_impl_cpp.Master.LeaseManager.Grants.{remove_all, grant_now, failures}
use gfs_impl_cpp.Master.LeaseManager.Grants.{Attempt, Round, settle, prepare_locked, clear_granting}
use gfs_impl_cpp.Master.LeaseManager.Revokes.{revoke_begin, revoke_end, IsDead}
use mathlib.Core.Option.{some-injective}
use mathlib.Core.Path.{subst}
use gfs_impl_cpp.Master.LeaseManager.Rounds.{table_after}
use gfs_impl_cpp.Master.ChunkTable.{remove_location}
use gfs_impl_cpp.Master.Handlers.Spared.{Spares, put-Spares, remove_location-Spares}

abbrev pub edited : ChunkTable → ℕ → ℕ → ℕ → Bool → Option ChunkMeta → ChunkTable
edited t h version refcount pending none = t
edited t h version refcount pending (some m) =
    ChunkTable.put t h (record m { version = version; refcount = refcount; pending = pending })

module _ (handle : ℕ) where
  put_other-Spares :
      (t : ChunkTable) (h : ℕ) (m : ChunkMeta) → handle ≢ h → Spares handle t (ChunkTable.put t h m)
  unfolding ChunkTable.put ChunkTable.find
  put_other-Spares t h m n d x e = d x (
      sym (
        lookup-insert handle h m t.chunks
        ∙ if_neg (ℕ_discrete handle h) n (some m) (lookup handle t.chunks))
      ∙ e)

  pub create-Spares :
      (t : ChunkTable) (h version : ℕ) → Spares handle t (ChunkTable.create t h version)
  unfolding ChunkTable.create ChunkTable.find ChunkTable.put
  create-Spares t h version = elim (Option-cases (lookup h t.chunks)) [
    | inl n ↦
        rw (n, ChunkTable.create)
          (λ d x e. elim (ℕ_discrete handle h) [
            | yes p ↦
                let new : ChunkMeta = record fresh_meta { version = version } in
                let same : new ≡ x = some-injective new x (
                  sym (
                    lookup-insert handle h new t.chunks
                    ∙ if_pos (ℕ_discrete handle h) p (some new) (lookup handle t.chunks))
                  ∙ e) in
                subst (λ (m : ChunkMeta). IsDead m.lease) same tt
            | no p ↦ put_other-Spares t h (record fresh_meta { version = version }) p d x e
          ])
    | inr (m, f) ↦ rw (f, ChunkTable.create) (λ d. d)
  ]

  pub erase_chunk-Spares : (t : ChunkTable) (h : ℕ) → Spares handle t (erase_chunk t h)
  unfolding erase_chunk ChunkTable.find
  erase_chunk-Spares t h d = elim (Option-cases (lookup h t.chunks)) [
    | inl n ↦ rw (n, erase_chunk) d
    | inr (m, f) ↦
        rw (f, erase_chunk)
          (λ x e. elim (ℕ_discrete handle h) [
            | yes p ↦ absurd (ground (arith, lookup-erase handle h t.chunks, p, e))
            | no p ↦ d x (ground (arith, lookup-erase handle h t.chunks, p, e))
          ])
  ]

  pub edited-put-Spares :
      (t : ChunkTable) (h version refcount : ℕ) (pending : Bool)
      → Spares handle t (edited t h version refcount pending (ChunkTable.find t h))
  edited-put-Spares t h version refcount pending = elim (Option-cases (ChunkTable.find t h)) [
    | inl n ↦ rw n (λ d. d)
    | inr (m, f) ↦ rw f (put-Spares handle t h m _ f (λ k. k))
  ]

  pub revoke_begin-Spares :
      (config : Config) (t : ChunkTable) (h : ℕ) (now : ℤ)
      → Spares handle t (revoke_begin config t h now).0
  unfolding revoke_begin
  revoke_begin-Spares config t h now = elim (Option-cases (ChunkTable.find t h)) [
    | inl n ↦ rw (n, revoke_begin) (λ d. d)
    | inr (meta, f) ↦ elim (Option-cases meta.lease) [
      | inl n ↦ rw (f, revoke_begin, n) (λ d. d)
      | inr (lease, l) ↦ elim (Bool-cases (is_current config lease now)) [
        | inl c ↦ rw (f, revoke_begin, l, c) (put-Spares handle t h meta _ f (λ k. refl))
        | inr c ↦ rw (f, revoke_begin, l, c) (put-Spares handle t h meta _ f (λ k. tt))
      ]
    ]
  ]

  pub revoke_end-Spares :
      (t : ChunkTable) (h : ℕ) (primary : Bytes) (answered : Bool)
      → Spares handle t (revoke_end t h primary answered).0
  unfolding revoke_end
  revoke_end-Spares t h primary answered = elim (Option-cases (ChunkTable.find t h)) [
    | inl n ↦ rw (n, revoke_end) (λ d. d)
    | inr (meta, f) ↦ elim (Option-cases meta.lease) [
      | inl n ↦ rw (f, revoke_end, n) (λ d. d)
      | inr (lease, l) ↦ elim (Bool-cases (answered && bytes_eq lease.primary primary)) [
        | inl c ↦ rw (f, revoke_end, l, c) (put-Spares handle t h meta _ f (λ k. tt))
        | inr c ↦ rw (f, revoke_end, l, c) (λ d. d)
      ]
    ]
  ]

  pub prepare_locked-Spares :
      (config : Config) (resolve : Bytes → Option Replica) (t : ChunkTable) (h : ℕ)
      → Spares handle t (prepare_locked config resolve t h).0
  unfolding prepare_locked
  prepare_locked-Spares config resolve t h = elim (Option-cases (ChunkTable.find t h)) [
    | inl n ↦ rw (n, prepare_locked) (λ d. d)
    | inr (meta, f) ↦
        let attempt = attempt_for config meta (live_locations resolve meta.locations) in
        elim (Bool-cases (is_some attempt)) [
          | inl c ↦ rw (f, prepare_locked, c) (put-Spares handle t h meta _ f (λ k. k))
          | inr c ↦ rw (f, prepare_locked, c) (λ d. d)
        ]
  ]

  pub clear_granting-Spares : (t : ChunkTable) (h : ℕ) → Spares handle t (clear_granting t h)
  unfolding clear_granting
  clear_granting-Spares t h = elim (Option-cases (ChunkTable.find t h)) [
    | inl n ↦ rw (n, clear_granting) (λ d. d)
    | inr (meta, f) ↦ rw (f, clear_granting) (put-Spares handle t h meta _ f (λ k. k))
  ]

  remove_all-Spares :
      (t : ChunkTable) (h : ℕ) (servers : Set Bytes) → Spares handle t (remove_all t h servers)
  unfolding remove_all
  remove_all-Spares t h [] d = d
  remove_all-Spares t h ((id, _) ∷ servers) d =
      remove_all-Spares (remove_location t h id).0 h servers
        (remove_location-Spares handle t h id d)

  pub settle-Spares :
      (config : Config) (round : Round) (t : ChunkTable) (h : ℕ) (attempt : Attempt)
      → handle ≢ h
      → Spares handle t (table_after (settle config round t h attempt))
  unfolding settle grant_now
  settle-Spares config round t h attempt other = elim (Option-cases (ChunkTable.find t h)) [
    | inl n ↦ rw (n, settle) (λ d. d)
    | inr (meta, f) ↦
        let failed = failures round.acked (attempt.primary ∷ attempt.secondaries) in
        elim (Bool-cases (is_empty failed)) [
          | inl c ↦ rw (f, settle, c) (put_other-Spares t h _ other)
          | inr c ↦ rw (f, settle, c) (remove_all-Spares t h failed)
        ]
  ]
