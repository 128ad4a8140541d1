-- ===== src/Master/Handlers/Placement.antt =====
-- src/master/master.cc: `ChooseServers`.
use gfs_impl_cpp.Base.{ltb, leb, if◌then◌else◌, length, ℕ, List, [], ◌∷◌, ◌++◌}
use gfs_impl_cpp.Base.Bytes.{Bytes, bytes_key}
use gfs_impl_cpp.Base.Map.{nat_key, Set, insert, contains}
use gfs_impl_cpp.Master.ChunkTable.{ChunkTable, held_count}
use gfs_impl_cpp.Master.Registry.{ChunkserverInfo, alive_servers}
use gfs_impl_cpp.Master.LeaseManager.Grants.{is_among}
use gfs_impl_cpp.Master.Handlers.{Master}

-- `std::stable_sort` by the number of chunks held: `s` goes behind the servers that hold as many.
unfoldable pub rank_in :
    ℕ → ChunkserverInfo → List (ℕ × ChunkserverInfo) → List (ℕ × ChunkserverInfo)
rank_in held s [] = (held, s) ∷ []
rank_in held s ((other, r) ∷ ranked) =
    let rest = rank_in held s ranked in
    if ltb held other then (held, s) ∷ (other, r) ∷ ranked else (other, r) ∷ rest

unfoldable pub rank :
    ChunkTable → List (ℕ × ChunkserverInfo) → List ChunkserverInfo → List (ℕ × ChunkserverInfo)
rank t ranked [] = ranked
rank t ranked (s ∷ servers) = rank t (rank_in (held_count t s.id) s ranked) servers

-- The first loop of `ChooseServers`: at most one server of a rack.
unfoldable pub choose_by_rack : ℕ → List Bytes → Set Bytes → List (ℕ × ChunkserverInfo) → List Bytes
choose_by_rack count chosen racks [] = chosen
choose_by_rack count chosen racks ((_, s) ∷ ranked) =
    let taken = choose_by_rack count (chosen ++ s.id ∷ []) (insert s.rack tt racks) ranked in
    let passed = choose_by_rack count chosen racks ranked in
    if leb count (length chosen) then chosen else if contains s.rack racks then passed else taken

-- The second loop: the servers that were passed over.
unfoldable pub choose_rest : ℕ → List Bytes → List (ℕ × ChunkserverInfo) → List Bytes
choose_rest count chosen [] = chosen
choose_rest count chosen ((_, s) ∷ ranked) =
    let rest =
      choose_rest count (if is_among s.id chosen then chosen else chosen ++ s.id ∷ []) ranked in
    if leb count (length chosen) then chosen else rest

unfoldable pub choose_servers : Master → ℕ → List Bytes
choose_servers m count =
    let ranked = rank m.state.chunks [] (alive_servers m.registry) in
    choose_rest count (choose_by_rack count [] [] ranked) ranked
