-- ===== src/Master/Handlers/Spared.antt =====
-- Steps on the chunk table of src/master that leave no new lease on a chunk.
pub mod Beats
pub mod Sections
use gfs_impl_cpp.Base.{
  Bool-cases, Option-cases, ℕ, ◌≡◌, refl, sym, ◌∙◌, inl, inr, if_pos, if_neg, ite, some, ℕ_discrete,
}
use gfs_impl_cpp.Base.Bytes.{Bytes, bytes_key}
use gfs_impl_cpp.Base.Int.{ℤ}
use gfs_impl_cpp.Base.Map.{nat_key, lookup, insert, erase, lookup-insert, contains}
use gfs_impl_cpp.Master.ChunkTable
use gfs_impl_cpp.Master.ChunkTable.{ChunkTable, ChunkMeta, add_location, remove_location}
use gfs_impl_cpp.Master.LeaseManager.Revokes.{IsDead, IsDeadAt}
use mathlib.Core.Option.{some-injective}
use mathlib.Core.Path.{subst}

module _ (handle : ℕ) where
  -- A step on the table that leaves no new lease on the chunk.
  abbrev pub Spares : ChunkTable → ChunkTable → Type 0
  Spares t t' = IsDeadAt handle t → IsDeadAt handle t'

  pub edited-Spares :
      (t t' : ChunkTable) (h : ℕ) (old new : ChunkMeta)
      → lookup h t.chunks ≡ some old
      → (IsDead old.lease → IsDead new.lease)
      → t'.chunks ≡ insert h new t.chunks
      → Spares t t'
  unfolding ChunkTable.find
  edited-Spares t t' h old new f k w d m e =
      let found : lookup handle t'.chunks
          ≡ ite (ℕ_discrete handle h) (some new) (lookup handle t.chunks) =
        rw w (lookup-insert handle h new t.chunks) in
      elim (ℕ_discrete handle h) [
        | yes p ↦
            let same : new ≡ m = some-injective new m (
              sym (found ∙ if_pos (ℕ_discrete handle h) p (some new) (lookup handle t.chunks))
              ∙ e) in
            subst (λ (x : ChunkMeta). IsDead x.lease) same (k (d old (rw p f)))
        | no n ↦
            d m
              (sym (found ∙ if_neg (ℕ_discrete handle h) n (some new) (lookup handle t.chunks)) ∙ e)
      ]

  pub put-Spares :
      (t : ChunkTable) (h : ℕ) (old new : ChunkMeta)
      → ChunkTable.find t h ≡ some old
      → (IsDead old.lease → IsDead new.lease)
      → Spares t (ChunkTable.put t h new)
  unfolding ChunkTable.find ChunkTable.put
  put-Spares t h old new f k = edited-Spares t (ChunkTable.put t h new) h old new f k refl

  pub remove_location-Spares :
      (t : ChunkTable) (h : ℕ) (server : Bytes) → Spares t (remove_location t h server).0
  unfolding remove_location
  remove_location-Spares t h server = elim (Option-cases (lookup h t.chunks)) [
    | inl n ↦ rw (n, remove_location) (λ d. d)
    | inr (m, f) ↦
        let new : ChunkMeta = record m { locations = erase server m.locations } in
        elim (Bool-cases (contains server m.locations)) [
          | inl c ↦
              edited-Spares t (remove_location t h server).0 h m new f (λ k. k)
                (rw (f, remove_location, c) refl)
          | inr c ↦ rw (f, remove_location, c) (λ d. d)
        ]
  ]

  pub add_location-Spares :
      (t : ChunkTable) (h : ℕ) (server : Bytes) (when : ℤ)
      → Spares t (add_location t h server when).0
  unfolding add_location
  add_location-Spares t h server when = elim (Option-cases (lookup h t.chunks)) [
    | inl n ↦ rw (n, add_location) (λ d. d)
    | inr (m, f) ↦
        let new : ChunkMeta = record m { locations = insert server when m.locations } in
        elim (Bool-cases (contains server m.locations)) [
          | inl c ↦ rw (f, add_location, c) (λ d. d)
          | inr c ↦
              edited-Spares t (add_location t h server when).0 h m new f (λ k. k)
                (rw (f, add_location, c) refl)
        ]
  ]
