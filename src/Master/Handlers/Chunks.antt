-- ===== src/Master/Handlers/Chunks.antt =====
-- src/master/master.cc: the requests on the chunks of a file. What the chunkservers answer, and what
-- other threads do between two sections that hold the state's mutex, are parameters.
use gfs_impl_cpp.Base.{
  ltb, leb, ◌==◌, if◌then◌else◌, length, get_elem?, drop, ℕ, ◌+◌, ◌%◌, max, Bool, true, false, not,
  ◌||◌, Option, none, some, List, [], ◌∷◌, ◌++◌,
}
use gfs_impl_cpp.Base.Bytes.{Bytes, bytes, bytes_key}
use gfs_impl_cpp.Base.Int.{ℤ}
use gfs_impl_cpp.Base.Map.{nat_key, keys}
use gfs_impl_cpp.Common.Config.{Config}
use gfs_impl_cpp.Common.Decimal.{print_nat}
use gfs_impl_cpp.Common.Replica.{Replica}
use gfs_impl_cpp.Master.Namespace
use gfs_impl_cpp.Master.ChunkTable
use gfs_impl_cpp.Master.ChunkTable.{ChunkTable, ChunkMeta, add_location, erase_chunk, is_empty}
use gfs_impl_cpp.Master.Registry.{Servers, resolve}
use gfs_impl_cpp.Master.State.{
  u64_mod, alloc_handle, add_chunk, replace_chunk, apply_alloc_handle, apply_add_chunk,
  apply_replace_chunk,
}
use gfs_impl_cpp.Common.ResultCode.{ResultCode, ok, no_replicas}
use gfs_impl_cpp.Master.LeaseManager.Grants.{live_locations, resolve_all}
use gfs_impl_cpp.Master.Handlers.{Status, status_ok, invalid, missing, Master, log, check_path}
use gfs_impl_cpp.Master.Handlers.Placement.{choose_servers}

-- The section of `AllocHandle`.
unfoldable pub alloc_section : Master → Master × ℕ
alloc_section m =
    let handle = m.state.next_handle in
    let s = apply_alloc_handle m.state handle in
    let t = ChunkTable.create s.chunks handle 1 in
    let t' : ChunkTable = elim (ChunkTable.find t handle) [
      | none ↦ t
      | some meta ↦ ChunkTable.put t handle (record meta { pending = true })
    ] in
    (log (record m { state = record s { chunks = t' } }) (alloc_handle handle), handle)

unfoldable pub resolve_locations : Servers → ChunkMeta → List Replica
resolve_locations registry meta = resolve_all (resolve registry) (keys meta.locations)

pub record ChunkInfo : Type 0 where
  pub index : ℕ
  pub handle : ℕ
  pub version : ℕ
  pub replicas : List Replica

unfoldable pub fill_chunk_info : Servers → ℕ → ℕ → ChunkMeta → ChunkInfo
fill_chunk_info registry index handle meta = record {
  index = index;
  handle = handle;
  version = meta.version;
  replicas = resolve_locations registry meta;
}

-- The loop of `FindLocation` from `index` on; `handles` is what the file has from there.
unfoldable pub locations_from : Servers → ChunkTable → ℕ → ℕ → List ℕ → List ChunkInfo
locations_from registry t index limit [] = []
locations_from registry t index limit (handle ∷ handles) =
    let rest = locations_from registry t (index + 1) limit handles in
    if not (ltb index limit) then [] else elim (ChunkTable.find t handle) [
      | none ↦ rest
      | some meta ↦ fill_chunk_info registry index handle meta ∷ rest
    ]

unfoldable pub find_location : Master → Bytes → ℕ → ℕ → Status × List ChunkInfo
find_location m path first_index count = elim (check_path path false) [
  | some status ↦ (status, [])
  | none ↦ elim (Namespace.find m.state.files path) [
    | none ↦ (missing path, [])
    | some meta ↦
        let limit = (first_index + max 1 count) % u64_mod in
        (
          status_ok,
          locations_from m.registry m.state.chunks first_index limit (drop first_index meta.chunks),
        )
  ]
]

-- `for (const auto& id : ok) state_.chunks.AddLocation(handle, id, t);`
unfoldable pub add_locations : ChunkTable → ℕ → ℤ → List Bytes → ChunkTable
add_locations t handle now [] = t
add_locations t handle now (id ∷ ids) =
    add_locations (add_location t handle id now).0 handle now ids

abbrev pub too_few : Config → List Bytes → Bool
too_few config created = ltb (length created) config.min_replicas_for_write || is_empty created

-- What the first section of `CopyOnWrite` decides: to return a handle, or to copy from the holders.
pub data CopyPlan : Type 0 where
  returns : ℕ → CopyPlan
  copies : List Bytes → CopyPlan

unfoldable pub copy_begin : Master → Bytes → ℕ → ℕ → CopyPlan
copy_begin m path index old_handle = elim (Namespace.find m.state.files path) [
  | none ↦ returns 0
  | some file ↦ elim (get_elem? file.chunks index) [
    | none ↦ returns 0
    | some handle ↦
        if not (handle == old_handle)
        then returns handle
        else elim (ChunkTable.find m.state.chunks old_handle) [
          | none ↦ returns 0
          | some meta ↦
              if leb meta.refcount 1
              then returns old_handle
              else copies (live_locations (resolve m.registry) meta.locations)
        ]
  ]
]

-- The last section; `created` are the chunkservers that made the copy.
unfoldable pub copy_section : Config → Master → Bytes → ℕ → ℕ → List Bytes → ℤ → Master × ℕ
copy_section config m path index fresh created now =
    if too_few config created
    then (record m { state = record m.state { chunks = erase_chunk m.state.chunks fresh } }, 0)
    else let s = record m.state { chunks = add_locations m.state.chunks fresh now created } in
      (
        log (record m { state = apply_replace_chunk s path index fresh })
            (replace_chunk path index fresh),
        fresh,
      )

-- The chunkservers among `ids` that answered OK to `CreateChunk`, in the order of their answers.
abbrev pub Creates : Type 0
Creates = List Bytes → ℕ → List Bytes

unfoldable pub copy_on_write :
    Config → Creates → (Master → Master) → Master → Bytes → ℕ → ℕ → ℤ → Master × ℕ
copy_on_write config creates during m path index old_handle now =
    elim (copy_begin m path index old_handle) [
      | returns handle ↦ (m, handle)
      | copies holders ↦
          let allocated = alloc_section m in
          copy_section config (during allocated.0) path index allocated.1
            (creates holders allocated.1) now
    ]

-- What the first section of `AddChunk` decides: to answer, or to create the chunk.
pub data AddPlan : Type 0 where
  answers : Status → Option ChunkInfo → AddPlan
  creates : AddPlan

unfoldable pub add_begin : Master → Bytes → ℕ → AddPlan
add_begin m path index = elim (Namespace.find m.state.files path) [
  | none ↦ answers (missing path) none
  | some file ↦ elim (get_elem? file.chunks index) [
    | some handle ↦ elim (ChunkTable.find m.state.chunks handle) [
      | none ↦ answers status_ok none
      | some meta ↦ answers status_ok (some (fill_chunk_info m.registry index handle meta))
    ]
    | none ↦
        if ltb (length file.chunks) index
        then answers
            (invalid (bytes "chunk index " ++ (print_nat index ++ bytes " would leave a hole")))
            none
        else creates
  ]
]

pub record AddResponse : Type 0 where
  pub status : Status
  pub code : ResultCode
  pub chunk : Option ChunkInfo

-- The last section of `AddChunk`. Its `*Find(handle)` reads an entry that is there.
unfoldable pub add_section : Config → Master → Bytes → ℕ → ℕ → List Bytes → ℤ → Master × AddResponse
add_section config m path index handle created now =
    if too_few config created
    then (
      record m { state = record m.state { chunks = erase_chunk m.state.chunks handle } },
      record { status = status_ok; code = no_replicas; chunk = none },
    )
    else let s =
        apply_add_chunk
          (record m.state { chunks = add_locations m.state.chunks handle now created }) path index
          handle in
      (
        log (record m { state = s }) (add_chunk path index handle),
        record {
          status = status_ok;
          code = ok;
          chunk = elim (ChunkTable.find s.chunks handle) [
            | none ↦ none
            | some meta ↦ some (fill_chunk_info m.registry index handle meta)
          ];
        },
      )

-- `AddChunk`; `chosen` is what other threads do between the two sections before the servers are chosen,
-- `during` while the chunk is created.
unfoldable pub add_chunk_request :
    Config
    → Creates
    → (Master → Master)
    → (Master → Master)
    → Master
    → Bytes
    → ℕ
    → ℤ
    → Master × AddResponse
add_chunk_request config create_on chosen during m path index now = elim (check_path path false) [
  | some status ↦ (m, record { status = status; code = ok; chunk = none })
  | none ↦ elim (add_begin m path index) [
    | answers status chunk ↦ (m, record { status = status; code = ok; chunk = chunk })
    | creates ↦
        let allocated = alloc_section m in
        let m' = chosen allocated.0 in
        let created = create_on (choose_servers m' config.replication_goal) allocated.1 in
        add_section config (during m') path index allocated.1 created now
  ]
]
