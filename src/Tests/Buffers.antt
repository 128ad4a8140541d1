-- ===== src/Tests/Buffers.antt =====
-- The data buffer.
use gfs_impl_cpp.Base.{length, ℕ, ◌≤◌, max, ◌≡◌, refl, some, [], ◌∷◌, map, arith}
use gfs_impl_cpp.Base.Bytes.{bytes, bytes_key}
use gfs_impl_cpp.Base.Map.{nat_key}
use gfs_impl_cpp.Tests.{strings}
use gfs_impl_cpp.Chunkserver.DataBuffer
use gfs_impl_cpp.Chunkserver.DataBuffer.{
  BufferKey, DataBuffer, index_find, index_erase, node_at, erase_node, entry_of, drop_entry,
  last_of, without_last, evict, push_front, drop_existing, take_data,
}
use gfs_impl_cpp.Chunkserver.DataBuffer.Bounds.{IsAccounted, put-IsAccounted}

buffers : Unit {0}
unfolding strings index_find index_erase node_at erase_node entry_of drop_entry last_of without_last
    evict push_front drop_existing DataBuffer.put take_data
buffers = tt

abbrev key : ℕ → BufferKey
key n = record { client_id = bytes "c"; sequence = n }

abbrev empty_buffer : DataBuffer
empty_buffer = record { capacity = 5; used = 0; lru = []; index = []; next_iterator = 0 }

abbrev two_entries : DataBuffer
two_entries =
    DataBuffer.put (DataBuffer.put empty_buffer (key 1) (bytes "abc")) (key 2) (bytes "de")

-- The oldest entry makes room, and a put of the same key replaces its data.
runs :
    (map (λ n. n.bytes) (DataBuffer.put two_entries (key 3) (bytes "f")).lru
      ≡ bytes "f" ∷ bytes "de" ∷ [])
    × ((DataBuffer.put two_entries (key 1) (bytes "x")).used ≡ 3)
    × ((take_data two_entries (key 1)).1 ≡ some (bytes "abc"))
unfolding buffers
runs = (refl, refl, refl)

two_entries-IsAccounted : IsAccounted two_entries
unfolding buffers
two_entries-IsAccounted = (refl, omega arith)

put-IsAccounted_example :
    IsAccounted (DataBuffer.put two_entries (key 3) (bytes "f"))
    × ((DataBuffer.put two_entries (key 3) (bytes "f")).used
        ≤ max two_entries.capacity (length (bytes "f")))
put-IsAccounted_example =
    put-IsAccounted two_entries (key 3) (bytes "f") two_entries-IsAccounted
      (unfold buffers in omega arith)
