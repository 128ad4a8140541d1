-- ===== src/Chunkserver/Requests/Beats.antt =====
-- `Chunkserver::SendHeartbeat` of src/chunkserver/chunkserver.cc: the request, and what its answer does.
-- The requests of other threads run between the two.
use gfs_impl_cpp.Base.{
  ◌==◌, if◌then◌else◌, map, ℕ, ◌≡◌, refl, Bool, true, false, none, List, [], ◌∷◌, arith,
}
use gfs_impl_cpp.Base.Bytes.{Bytes}
use gfs_impl_cpp.Base.Int.{ℤ}
use gfs_impl_cpp.Base.Map.{nat_key, lookup, lookup-erase, erase}
use gfs_impl_cpp.Master.Handlers.Beats.{ChunkReport, HeartBeatRequest}
use gfs_impl_cpp.Chunkserver.LeaseTable
use gfs_impl_cpp.Chunkserver.LeaseTable.{handles_to_extend}
use gfs_impl_cpp.Chunkserver.ChunkStore
use gfs_impl_cpp.Chunkserver.ChunkStore.{
  ChunkStore, ChunkListing, list_chunks, corrupt_handles, clear_corrupt,
}
use gfs_impl_cpp.Chunkserver.ChunkStore.Entries.{Faults}
use gfs_impl_cpp.Chunkserver.Requests.{Server}

-- The length of a report is left out: the master does not read it.
abbrev report : ChunkListing → ChunkReport
report c = record { handle = c.handle; version = c.version }

unfoldable pub heartbeat_request : Server → ℤ → Bytes → Bytes → HeartBeatRequest
heartbeat_request s now advertise rack = record {
  chunkserver_id = s.id;
  address = advertise;
  rack = rack;
  chunks = map report (list_chunks s.store);
  lease_extension_requests = handles_to_extend s.leases now;
  corrupt = corrupt_handles s.store;
}

unfoldable pub delete_all : (ℕ → Faults) → Server → List ℕ → Server
delete_all faults s [] = s
delete_all faults s (handle ∷ handles) =
    delete_all faults
      (record s {
        leases = LeaseTable.revoke s.leases handle;
        store = (ChunkStore.remove (faults handle) s.store handle).0;
      })
      handles

unfoldable pub extend_all : Server → ℤ → List (ℕ × ℤ) → Server
extend_all s now [] = s
extend_all s now ((handle, lease) ∷ extended) =
    extend_all (record s { leases = (LeaseTable.extend s.leases now handle lease).0 }) now extended

-- The answer of the master: the handles to delete and the leases that it extended. `faults` says for each
-- handle what happens to the files.
unfoldable pub heard : (ℕ → Faults) → Server → ℤ → List ℕ → List ℕ → List (ℕ × ℤ) → Server
heard faults s now corrupt deletes extended =
    extend_all (delete_all faults (record s { store = clear_corrupt s.store corrupt }) deletes) now
      extended

unfoldable pub among : ℕ → List ℕ → Bool
among h [] = false
among h (handle ∷ handles) = if h == handle then true else among h handles

clear_corrupt-entries :
    (s : ChunkStore) (handles : List ℕ) → (clear_corrupt s handles).entries ≡ s.entries
unfolding clear_corrupt
clear_corrupt-entries s [] = refl
clear_corrupt-entries s (handle ∷ handles) =
    clear_corrupt-entries (record s { corrupt = erase handle s.corrupt }) handles

extend_all-store :
    (s : Server) (now : ℤ) (extended : List (ℕ × ℤ)) → (extend_all s now extended).store ≡ s.store
unfolding extend_all
extend_all-store s now [] = refl
extend_all-store s now ((handle, lease) ∷ extended) =
    extend_all-store (record s { leases = (LeaseTable.extend s.leases now handle lease).0 }) now
      extended

lookup-remove :
    (faults : Faults) (s : ChunkStore) (h handle : ℕ)
    → lookup h (ChunkStore.remove faults s handle).0.entries
      ≡ (if h == handle then none else lookup h s.entries)
unfolding ChunkStore.remove
lookup-remove faults s h handle = ground (arith, lookup-erase h handle s.entries)

lookup-delete_all :
    (faults : ℕ → Faults) (s : Server) (h : ℕ) (handles : List ℕ)
    → lookup h (delete_all faults s handles).store.entries
      ≡ (if among h handles then none else lookup h s.store.entries)
unfolding delete_all among
lookup-delete_all faults s h [] = refl
lookup-delete_all faults s h (handle ∷ handles) =
    let s' : Server = record s {
      leases = LeaseTable.revoke s.leases handle;
      store = (ChunkStore.remove (faults handle) s.store handle).0;
    } in
    let rest = lookup-delete_all faults s' h handles in
    let one = lookup-remove (faults handle) s.store h handle in ground (arith, rest, one)

-- After a heartbeat that the master answered, the chunks with the handles that it names for deletion are
-- gone from the store, whether or not their files can be unlinked, and every other chunk is as it was.
pub lookup-heard :
    (faults : ℕ → Faults) (s : Server) (now : ℤ) (corrupt deletes : List ℕ)
    (extended : List (ℕ × ℤ)) (h : ℕ)
    → lookup h (heard faults s now corrupt deletes extended).store.entries
      ≡ (if among h deletes then none else lookup h s.store.entries)
unfolding heard
lookup-heard faults s now corrupt deletes extended h =
    let cleared : Server = record s { store = clear_corrupt s.store corrupt } in
    rw
      (
        extend_all-store (delete_all faults cleared deletes) now extended,
        lookup-delete_all faults cleared h deletes,
        clear_corrupt-entries s.store corrupt,
      )
      refl
