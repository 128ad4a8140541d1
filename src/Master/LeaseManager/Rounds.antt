-- ===== src/Master/LeaseManager/Rounds.antt =====
-- The granting rounds, whatever the chunkservers answer and other threads do in between.
use gfs_impl_cpp.Base.{
  Bool-cases, Option-cases, ℕ, zero, suc, ◌+◌, ◌≤◌, ◌<◌, ◌≡◌, refl, ◌≢◌, inl, inr, true, none, some,
  [], ◌∷◌, arith,
}
use gfs_impl_cpp.Base.Bytes.{bytes_key}
use gfs_impl_cpp.Base.Map.{nat_key}
use gfs_impl_cpp.Master.ChunkTable
use gfs_impl_cpp.Master.ChunkTable.{ChunkTable, ChunkMeta, is_empty}
use gfs_impl_cpp.Common.Config.{Config}
use gfs_impl_cpp.Common.ResultCode.{ok, no_such_chunk, no_replicas}
use gfs_impl_cpp.Master.LeaseManager.Grants.{
  Attempt, live_locations, attempt_for, failed_with, failures, remove_all, clear_granting, Round,
  Outcome, Settled, done, again, grant_now, settle, grant_round, grant_from, grant_serialized,
  prepare_locked,
}
use gfs_impl_cpp.Master.LeaseManager.Attempts.{IsAttempt, attempt_for-IsAttempt}
use mathlib.Core.Path.{subst}
use gfs_impl_cpp.Master.LeaseManager.Granted.{IsGranted, none_failed, grant_now-IsGranted}

-- What a round comes to: it is over without a grant, it granted the lease, or the next one follows.
data Step (config : Config) (round : Round) (handle : ℕ) (start : ChunkTable) (s : Settled)
    : Type 0 where
  fails : (o : Outcome) → o.result.code ≢ ok → s ≡ done o → Step config round handle start s
  grants :
      (o : Outcome)
      → IsGranted config round handle start o
      → s ≡ done o
      → Step config round handle start s
  repeats : (t : ChunkTable) → s ≡ again t → Step config round handle start s

settle-Step :
    (config : Config) (round : Round) (start t : ChunkTable) (handle : ℕ) (attempt : Attempt)
    (prepared : ChunkMeta)
    → ChunkTable.find (round.before start) handle ≡ some prepared
    → IsAttempt config prepared (live_locations round.prepare_resolve prepared.locations) attempt
    → t
      ≡ round.during
          (ChunkTable.put (round.before start) handle (record prepared { granting = true }))
    → Step config round handle start (settle config round t handle attempt)
unfolding settle
settle-Step config round start t handle attempt prepared f a d =
    let failed = failures round.acked (attempt.primary ∷ attempt.secondaries) in
    elim (Option-cases (ChunkTable.find t handle)) [
      | inl n ↦
          fails (record { table = t; result = failed_with no_such_chunk; logged = [] }) (cc)
            (rw (n, settle) refl)
      | inr (meta, m) ↦ elim (Bool-cases (is_empty failed)) [
        | inl b ↦
            grants (grant_now config round t handle attempt meta)
              (grant_now-IsGranted config round start t handle attempt prepared meta f a d m
                (none_failed round.acked (attempt.primary ∷ attempt.secondaries) b))
              (rw (m, settle, b) refl)
        | inr b ↦ repeats (remove_all t handle failed) (rw (m, settle, b) refl)
      ]
    ]

no_attempt-Step :
    (config : Config) (round : Round) (handle : ℕ) (start : ChunkTable)
    → (prepare_locked config round.prepare_resolve (round.before start) handle).1 ≡ none
    → Step config round handle start (grant_round config round start handle)
unfolding grant_round
no_attempt-Step config round handle start n =
    let prepared = prepare_locked config round.prepare_resolve (round.before start) handle in
    fails
      (record {
        table = clear_granting (round.during prepared.0) handle;
        result = failed_with no_replicas;
        logged = [];
      })
      (cc) (rw (n, grant_round) refl)

grant_round-Step :
    (config : Config) (round : Round) (start : ChunkTable) (handle : ℕ)
    → Step config round handle start (grant_round config round start handle)
unfolding grant_round prepare_locked
grant_round-Step config round start handle =
    elim (Option-cases (ChunkTable.find (round.before start) handle)) [
      | inl n ↦ no_attempt-Step config round handle start (rw (n, prepare_locked) refl)
      | inr (meta, f) ↦
          let live = live_locations round.prepare_resolve meta.locations in
          elim (Option-cases (attempt_for config meta live)) [
            | inl n ↦ no_attempt-Step config round handle start (rw (f, prepare_locked, n) refl)
            | inr (attempt, e) ↦
                let marked =
                  ChunkTable.put (round.before start) handle (record meta { granting = true }) in
                let prepared =
                  prepare_locked config round.prepare_resolve (round.before start) handle in
                let table : prepared.0 ≡ marked = rw (f, prepare_locked, e) refl in
                let chosen : prepared.1 ≡ some attempt = rw (f, prepare_locked, e) refl in
                let settled : grant_round config round start handle
                    ≡ settle config round (round.during marked) handle attempt =
                  rw (chosen, grant_round, table) refl in
                rw settled (
                  settle-Step config round start (round.during marked) handle attempt meta f
                    (attempt_for-IsAttempt config meta live attempt e) refl)
          ]
    ]

abbrev pub table_after : Settled → ChunkTable
table_after (done o) = o.table
table_after (again t) = t

-- The table with which a round begins, the first one with `t`.
unfoldable pub start_of : Config → (ℕ → Round) → ℕ → ChunkTable → ℕ → ChunkTable
start_of config rounds handle t zero = t
start_of config rounds handle t (suc i) =
    table_after (grant_round config (rounds i) (start_of config rounds handle t i) handle)

-- A grant that reports success took place in one of the rounds from `i` on.
abbrev pub IsInRound : Config → (ℕ → Round) → ChunkTable → ℕ → ℕ → ℕ → Outcome → Type 0
IsInRound config rounds t i n handle o =
    (j : ℕ) × (i ≤ j)
    × (j < n)
    × IsGranted config (rounds j) handle (start_of config rounds handle t j) o

grant_from-IsGranted :
    (config : Config) (rounds : ℕ → Round) (last : ChunkTable → ChunkTable) (fuel i : ℕ)
    (t0 t : ChunkTable) (handle : ℕ)
    → t ≡ start_of config rounds handle t0 i
    → (grant_from config rounds last fuel i t handle).result.code ≡ ok
    → IsInRound config rounds t0 i (i + fuel) handle (grant_from config rounds last fuel i t handle)
unfolding grant_from start_of
grant_from-IsGranted config rounds last zero i t0 t handle s e = cc
grant_from-IsGranted config rounds last (suc fuel) i t0 t handle s e =
    elim (grant_round-Step config (rounds i) t handle) [
      | fails o n d ↦ absurd (n (rw (d, grant_from) at e))
      | grants o g d ↦
          rw (d, grant_from)
            (
              i,
              omega arith,
              omega arith,
              subst (λ (x : ChunkTable). IsGranted config (rounds i) handle x o) s g,
            )
      | repeats t' d ↦
          let next : t' ≡ start_of config rounds handle t0 (suc i) = rw (← s, d) refl in
          let count : suc i ≡ i + 1 = omega arith in
          let (j, low, high, g) =
            grant_from-IsGranted config rounds last fuel (i + 1) t0 t' handle
              (subst (λ (n : ℕ). t' ≡ start_of config rounds handle t0 n) count next)
              (rw (d, grant_from) at e) in
          rw (d, grant_from) (j, omega arith, omega arith, g)
    ]

-- Whatever the chunkservers answer and other threads do to the table in between, a grant that reports
-- success made the lease in one of the eight rounds. At the begin of this round enough locations of the
-- chunk resolved; every one of them answered OK, and the lease, from the round's time on, is the one of
-- such a server, and of the holder of the old lease where that is one. The version is logged and
-- returned: the greater one of the chunk's version after the calls and of the next one after its version
-- at the begin. The entry is not left granting, and the rest of it is as it was after the calls. The
-- result names the primary and all other servers that answered and still resolve.
pub grant_serialized-IsGranted :
    (config : Config) (rounds : ℕ → Round) (last : ChunkTable → ChunkTable) (t : ChunkTable)
    (handle : ℕ)
    → (grant_serialized config rounds last t handle).result.code ≡ ok
    → IsInRound config rounds t 0 8 handle (grant_serialized config rounds last t handle)
unfolding grant_serialized start_of
grant_serialized-IsGranted config rounds last t handle e =
    grant_from-IsGranted config rounds last 8 0 t t handle refl e
