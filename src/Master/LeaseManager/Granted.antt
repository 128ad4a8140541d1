-- ===== src/Master/LeaseManager/Granted.antt =====
-- What a round of `GrantSerialized` of src/master/lease_manager.cc has done when it gave the lease.
use gfs_impl_cpp.Base.{
  Bool-cases, is_some, length, ℕ, ◌+◌, ◌%◌, ◌≤◌, max, ◌≡◌, refl, sym, ap, ◌∙◌, ◌≢◌, inl, inr,
  if_pos, Bool, true, false, some, List, [], ◌∷◌, arith, ℕ_discrete,
}
use gfs_impl_cpp.Base.Bytes.{Bytes, bytes_key}
use gfs_impl_cpp.Base.Int.{◌+ℤ◌}
use gfs_impl_cpp.Base.Map.{nat_key, Set, lookup, insert, lookup-insert, contains}
use gfs_impl_cpp.Common.Replica.{Replica}
use gfs_impl_cpp.Master.ChunkTable
use gfs_impl_cpp.Master.ChunkTable.{ChunkTable, ChunkMeta, Lease, is_empty}
use gfs_impl_cpp.Master.State.{u64_mod, bump_version}
use gfs_impl_cpp.Common.Config.{Config}
use gfs_impl_cpp.Master.LeaseManager.Grants.{
  Attempt, live_locations, is_among, all_but, failures, Round, Outcome, grant_now,
}
use gfs_impl_cpp.Master.LeaseManager.Attempts.{
  AllAcked, IsAttempt, is_among-live_locations, live_locations-live, mem-resolve_all,
  is_among-all_but, acked-attempt,
}
use mathlib.Core.List.{Mem}
use mathlib.Core.Path.{subst}

-- The chunk's server resolves when the round prepares.
abbrev pub IsLive : Round → ChunkMeta → Bytes → Type 0
IsLive round meta id =
    (contains id meta.locations ≡ true) × (is_some (round.prepare_resolve id) ≡ true)

-- What holds after a grant that succeeded in the round, which began with the table `start`: the chunk was
-- `prepared` at first and `settling` after the calls. It had enough live servers. All its live servers answered OK, and one of them is
-- the primary, the one of the old lease where that is live. The entry has a lease of the primary from the
-- round's time on, and a version that is not below the next one of `prepared`; it is logged and returned.
pub record IsGranted (config : Config) (round : Round) (handle : ℕ) (start : ChunkTable)
    (o : Outcome) : Type 0 where
  pub prepared : ChunkMeta
  pub settling : ChunkMeta
  pub primary : Bytes
  pub found : ChunkTable.find (round.before start) handle ≡ some prepared
  pub enough :
      config.min_replicas_for_write
      ≤ length (live_locations round.prepare_resolve prepared.locations)
  pub primary_live : IsLive round prepared primary
  pub keeps_primary :
      (lease : Lease)
      → prepared.lease ≡ some lease
      → IsLive round prepared lease.primary
      → primary ≡ lease.primary
  pub answered : (id : Bytes) → IsLive round prepared id → round.acked id ≡ true
  pub still_there :
      ChunkTable.find
        (round.during
          (ChunkTable.put (round.before start) handle (record prepared { granting = true })))
        handle
      ≡ some settling
  pub entry :
      ChunkTable.find o.table handle
      ≡ some (record settling {
        version = max settling.version ((prepared.version + 1) % u64_mod);
        granting = false;
        lease = some (record {
          primary = primary;
          expiry = round.now +ℤ config.lease_duration;
          revoked = false;
        });
      })
  pub version : o.result.version ≡ max settling.version ((prepared.version + 1) % u64_mod)
  pub logged : o.logged ≡ bump_version handle o.result.version ∷ []
  pub resolved : o.result.primary ≡ round.resolve primary
  pub secondaries :
      (id : Bytes) (replica : Replica)
      → IsLive round prepared id
      → id ≢ primary
      → round.resolve id ≡ some replica
      → Mem replica o.result.secondaries

is_empty-insert : (id : Bytes) (s : Set Bytes) → is_empty (insert id tt s) ≡ false
unfolding insert
is_empty-insert id [] = refl
is_empty-insert id ((j, w) ∷ s) = ground arith

pub none_failed :
    (acked : Bytes → Bool) (ids : List Bytes)
    → is_empty (failures acked ids) ≡ true
    → AllAcked acked ids
unfolding failures
none_failed acked [] e = tt
none_failed acked (id ∷ ids) e = elim (Bool-cases (acked id)) [
  | inl b ↦ (b, none_failed acked ids (rw b at e))
  | inr b ↦ ground (arith, is_empty-insert id (failures acked ids))
]

pub find-put :
    (t : ChunkTable) (handle : ℕ) (m : ChunkMeta)
    → ChunkTable.find (ChunkTable.put t handle m) handle ≡ some m
unfolding ChunkTable.find ChunkTable.put
find-put t handle m =
    lookup-insert handle handle m t.chunks
    ∙ if_pos (ℕ_discrete handle handle) refl (some m) (lookup handle t.chunks)

pub grant_now-IsGranted :
    (config : Config) (round : Round) (start t : ChunkTable) (handle : ℕ) (attempt : Attempt)
    (prepared settling : ChunkMeta)
    → ChunkTable.find (round.before start) handle ≡ some prepared
    → IsAttempt config prepared (live_locations round.prepare_resolve prepared.locations) attempt
    → t
      ≡ round.during
          (ChunkTable.put (round.before start) handle (record prepared { granting = true }))
    → ChunkTable.find t handle ≡ some settling
    → AllAcked round.acked (attempt.primary ∷ attempt.secondaries)
    → IsGranted config round handle start (grant_now config round t handle attempt settling)
unfolding grant_now
grant_now-IsGranted config round start t handle attempt prepared settling f a d g acked =
    let live = live_locations round.prepare_resolve prepared.locations in
    let among : (id : Bytes) → IsLive round prepared id → is_among id live ≡ true =
      λ id l. is_among-live_locations round.prepare_resolve id prepared.locations l.0 l.1 in
    let all_acked : AllAcked round.acked (attempt.primary ∷ all_but attempt.primary live) =
      subst (λ (ids : List Bytes). AllAcked round.acked (attempt.primary ∷ ids)) a.others acked in
    record {
      prepared = prepared;
      settling = settling;
      primary = attempt.primary;
      found = f;
      enough = a.enough;
      primary_live =
          live_locations-live round.prepare_resolve attempt.primary prepared.locations a.among;
      keeps_primary = λ lease e l. a.keeps lease e (among lease.primary l);
      answered = λ id l. acked-attempt round.acked attempt.primary id live all_acked (among id l);
      still_there = ap (λ (x : ChunkTable). ChunkTable.find x handle) (sym d) ∙ g;
      entry = rw (← a.next_version) (find-put t handle _);
      version = ap (max settling.version) a.next_version;
      logged = refl;
      resolved = refl;
      secondaries = λ id replica l n r. rw a.others (
          mem-resolve_all round.resolve id replica (all_but attempt.primary live)
            (is_among-all_but attempt.primary id live (among id l) n) r);
    }
