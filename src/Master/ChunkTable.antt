-- ===== src/Master/ChunkTable.antt =====
-- src/master/chunk_table.h and chunk_table.cc: the master's chunk table and its reverse index
-- `held_by_`. A function that fills in a `ChunkMeta*` is `find` for its reads and `put` for its
-- writes.
pub mod Located
pub mod Index
use gfs_impl_cpp.Base.{
  if◌then◌else◌, length, ℕ, Bool, true, false, Option, none, some, List, [], ◌∷◌,
}
use gfs_impl_cpp.Base.Bytes.{Bytes, bytes_key}
use gfs_impl_cpp.Base.Int.{ℤ}
use gfs_impl_cpp.Base.Map.{nat_key, Map, Set, lookup, insert, erase, contains}

pub record Lease : Type 0 where
  pub primary : Bytes
  pub expiry : ℤ
  pub revoked : Bool

pub record ChunkMeta : Type 0 where
  pub version : ℕ
  pub refcount : ℕ
  pub pending : Bool
  pub granting : Bool
  pub locations : Map Bytes ℤ
  pub lease : Option Lease

-- A new entry of `try_emplace`.
abbrev pub fresh_meta : ChunkMeta
fresh_meta = record {
  version = 1;
  refcount = 0;
  pending = false;
  granting = false;
  locations = [];
  lease = none;
}

pub record ChunkTable : Type 0 where
  pub chunks : Map ℕ ChunkMeta
  pub held_by : Map Bytes (Set ℕ)

unfoldable pub find : ChunkTable → ℕ → Option ChunkMeta
find t handle = lookup handle t.chunks

-- `*meta = m` for the pointer `meta` of `Find(handle)`.
unfoldable pub put : ChunkTable → ℕ → ChunkMeta → ChunkTable
put t handle m = record t { chunks = insert handle m t.chunks }

unfoldable pub create : ChunkTable → ℕ → ℕ → ChunkTable
unfolding put
create t handle version = elim (lookup handle t.chunks) [
  | none ↦ put t handle (record fresh_meta { version = version })
  | some m ↦ t
]

abbrev pub is_empty {ℓ} : {A : Type ℓ} → List A → Bool
is_empty [] = true
is_empty (x ∷ xs) = false

-- `held->second.erase(handle); if (held->second.empty()) held_by_.erase(held);`
unfoldable pub drop_held : Bytes → ℕ → Map Bytes (Set ℕ) → Map Bytes (Set ℕ)
drop_held server handle held_by = elim (lookup server held_by) [
  | none ↦ held_by
  | some held ↦
      let rest = erase handle held in
      if is_empty rest then erase server held_by else insert server rest held_by
]

-- The loop of `Erase` over the locations.
unfoldable pub drop_all : Map Bytes ℤ → ℕ → Map Bytes (Set ℕ) → Map Bytes (Set ℕ)
drop_all [] handle held_by = held_by
drop_all ((server, _) ∷ locations) handle held_by =
    drop_all locations handle (drop_held server handle held_by)

unfoldable pub erase_chunk : ChunkTable → ℕ → ChunkTable
unfolding drop_all drop_held
erase_chunk t handle = elim (lookup handle t.chunks) [
  | none ↦ t
  | some m ↦ record {
    chunks = erase handle t.chunks;
    held_by = drop_all m.locations handle t.held_by;
  }
]

unfoldable pub handles_of : Bytes → Map Bytes (Set ℕ) → Set ℕ
handles_of server held_by = elim (lookup server held_by) [ none ↦ [] | some held ↦ held ]

unfoldable pub add_location : ChunkTable → ℕ → Bytes → ℤ → ChunkTable × Bool
unfolding put handles_of
add_location t handle server when = elim (lookup handle t.chunks) [
  | none ↦ (t, false)
  | some m ↦ if contains server m.locations then (t, false) else (
    record {
      chunks = insert handle (record m { locations = insert server when m.locations }) t.chunks;
      held_by = insert server (insert handle tt (handles_of server t.held_by)) t.held_by;
    },
    true,
  )
]

unfoldable pub remove_location : ChunkTable → ℕ → Bytes → ChunkTable × Bool
unfolding drop_held
remove_location t handle server = elim (lookup handle t.chunks) [
  | none ↦ (t, false)
  | some m ↦
      if contains server m.locations
      then (
        record {
          chunks = insert handle (record m { locations = erase server m.locations }) t.chunks;
          held_by = drop_held server handle t.held_by;
        },
        true,
      )
      else (t, false)
]

unfoldable pub held_by_server : ChunkTable → Bytes → Set ℕ
unfolding handles_of
held_by_server t server = handles_of server t.held_by

unfoldable pub held_count : ChunkTable → Bytes → ℕ
held_count t server = elim (lookup server t.held_by) [ none ↦ 0 | some held ↦ length held ]

abbrev pub empty : ChunkTable
empty = record { chunks = []; held_by = [] }
