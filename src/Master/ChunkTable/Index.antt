-- ===== src/Master/ChunkTable/Index.antt =====
-- After any calls of the table: its reverse index agrees with the locations, and holds no empty set.
use gfs_impl_cpp.Base.{Option-cases, ℕ, ◌≡◌, ◌≢◌, inl, inr, some, List, [], ◌∷◌, arith}
use gfs_impl_cpp.Base.Bytes.{Bytes, bytes_key}
use gfs_impl_cpp.Base.Int.{ℤ}
use gfs_impl_cpp.Base.Map.{
  nat_key, Map, Set, lookup, insert, erase, contains, lookup-insert, lookup-erase,
}
use gfs_impl_cpp.Master.ChunkTable.{
  ChunkTable, find, put, create, drop_held, drop_all, erase_chunk, handles_of, add_location,
  remove_location, held_by_server, empty,
}
use gfs_impl_cpp.Master.ChunkTable.Located.{
  located, after, run, empty-IsIndexed, run-IsIndexed, Call, creates, erases, adds, removes, writes,
  clears,
}

-- No set of the index is empty.
abbrev pub IsTrim : Map Bytes (Set ℕ) → Type 0
IsTrim held_by = (server : Bytes) → lookup server held_by ≢ some []

drop_held-IsTrim :
    (s : Bytes) (h : ℕ) (held_by : Map Bytes (Set ℕ))
    → IsTrim held_by
    → IsTrim (drop_held s h held_by)
unfolding drop_held
drop_held-IsTrim s h held_by v q e = elim (Option-cases (lookup s held_by)) [
  | inl n ↦ v q (rw (n, drop_held) at e)
  | inr (held, n) ↦
      absurd
        (ground (arith, v q, lookup-insert q s (erase h held) held_by, lookup-erase q s held_by))
]

drop_all-IsTrim :
    (l : Map Bytes ℤ) (h : ℕ) (held_by : Map Bytes (Set ℕ))
    → IsTrim held_by
    → IsTrim (drop_all l h held_by)
unfolding drop_all
drop_all-IsTrim [] h held_by v = v
drop_all-IsTrim ((s, _) ∷ l) h held_by v = drop_all-IsTrim l h _ (drop_held-IsTrim s h held_by v)

insert-not-nil : (h : ℕ) (s : Set ℕ) → insert h tt s ≢ []
unfolding insert
insert-not-nil h [] e = cc
insert-not-nil h (x ∷ s) e = ground arith

create-IsTrim : (t : ChunkTable) (h version : ℕ) → (create t h version).held_by ≡ t.held_by
unfolding create
create-IsTrim t h version = ground (arith, Option-cases (lookup h t.chunks))

erase_chunk-IsTrim : (t : ChunkTable) (h : ℕ) → IsTrim t.held_by → IsTrim (erase_chunk t h).held_by
unfolding erase_chunk
erase_chunk-IsTrim t h v = elim (Option-cases (lookup h t.chunks)) [
  | inl e ↦ rw (e, erase_chunk) v
  | inr (m, e) ↦ rw (e, erase_chunk) (drop_all-IsTrim m.locations h t.held_by v)
]

add_location-IsTrim :
    (t : ChunkTable) (h : ℕ) (server : Bytes) (when : ℤ)
    → IsTrim t.held_by
    → IsTrim (add_location t h server when).0.held_by
unfolding add_location
add_location-IsTrim t h server when v q e = ground (
  arith,
  v q,
  Option-cases (lookup h t.chunks),
  lookup-insert q server (insert h tt (handles_of server t.held_by)) t.held_by,
  insert-not-nil h (handles_of server t.held_by),
)

remove_location-IsTrim :
    (t : ChunkTable) (h : ℕ) (server : Bytes)
    → IsTrim t.held_by
    → IsTrim (remove_location t h server).0.held_by
unfolding remove_location
remove_location-IsTrim t h server v q e =
    ground (arith, v q, Option-cases (lookup h t.chunks), drop_held-IsTrim server h t.held_by v q)

after-IsTrim : (t : ChunkTable) (c : Call) → IsTrim t.held_by → IsTrim (after t c).held_by
unfolding after
after-IsTrim t (creates handle version) v = rw (create-IsTrim t handle version) v
after-IsTrim t (erases handle) v = erase_chunk-IsTrim t handle v
after-IsTrim t (adds handle server when) v = add_location-IsTrim t handle server when v
after-IsTrim t (removes handle server) v = remove_location-IsTrim t handle server v
after-IsTrim t (writes handle f) v = elim (Option-cases (find t handle)) [
  | inl e ↦ rw (e, after) v
  | inr (m, e) ↦ unfold put in rw (e, after) v
]
after-IsTrim t clears v = λ q e. unfold lookup in cc

run-IsTrim : (t : ChunkTable) (cs : List Call) → IsTrim t.held_by → IsTrim (run t cs).held_by
unfolding run
run-IsTrim t [] v = v
run-IsTrim t (c ∷ cs) v = run-IsTrim (after t c) cs (after-IsTrim t c v)

-- After any calls of the table, `HeldBy` names a chunk exactly when the chunk is in the table and
-- lists the server among its locations, and no server is kept with an empty set of chunks.
pub run-held_by_server :
    (cs : List Call) (server : Bytes) (handle : ℕ)
    → (contains handle (held_by_server (run empty cs) server)
        ≡ located (run empty cs).chunks server handle)
      × (lookup server (run empty cs).held_by ≢ some [])
unfolding held_by_server
run-held_by_server cs server handle = (
  run-IsIndexed empty cs empty-IsIndexed server handle,
  run-IsTrim empty cs (λ q e. unfold lookup in cc) server,
)
