-- ===== src/Chunkserver/DataBuffer.antt =====
-- src/chunkserver/data_buffer.h and data_buffer.cc: the pushed data that waits for its write. A node of
-- the list `lru_` has a number that stands for its iterator, and `index_` maps keys to these numbers.
pub mod Bounds
use gfs_impl_cpp.Base.{
  ltb, ◌==◌, if◌then◌else◌, length, ℕ, zero, suc, ◌+◌, ◌-◌, ◌%◌, ◌^◌, Bool, ◌&&◌, Option, none,
  some, List, [], ◌∷◌,
}
use gfs_impl_cpp.Base.Bytes.{Bytes, bytes_key}
use gfs_impl_cpp.Base.Map.{nat_key}
use gfs_impl_cpp.Common.Paths.{bytes_eq}

abbrev pub u64_mod : ℕ
u64_mod = 2 ^ 64

pub record BufferKey : Type 0 where
  pub client_id : Bytes
  pub sequence : ℕ

-- `operator==`
abbrev pub key_eq : BufferKey → BufferKey → Bool
key_eq a b = a.sequence == b.sequence && bytes_eq a.client_id b.client_id

pub record Node : Type 0 where
  pub iterator : ℕ
  pub key : BufferKey
  pub bytes : Bytes

pub record DataBuffer : Type 0 where
  pub capacity : ℕ
  pub used : ℕ
  pub lru : List Node
  pub index : List (BufferKey × ℕ)
  pub next_iterator : ℕ

unfoldable pub index_find : BufferKey → List (BufferKey × ℕ) → Option ℕ
index_find key [] = none
index_find key ((k, it) ∷ index) =
    let rest = index_find key index in if key_eq k key then some it else rest

unfoldable pub index_erase : BufferKey → List (BufferKey × ℕ) → List (BufferKey × ℕ)
index_erase key [] = []
index_erase key ((k, it) ∷ index) =
    let rest = index_erase key index in if key_eq k key then rest else (k, it) ∷ rest

-- `*it`.
unfoldable pub node_at : ℕ → List Node → Option Node
node_at it [] = none
node_at it (n ∷ lru) = let rest = node_at it lru in if n.iterator == it then some n else rest

-- `lru_.erase(it)`.
unfoldable pub erase_node : ℕ → List Node → List Node
erase_node it [] = []
erase_node it (n ∷ lru) = let rest = erase_node it lru in if n.iterator == it then lru else n ∷ rest

-- `used_ -= size` and `used_ += size` of a `uint64_t`.
abbrev pub minus : ℕ → ℕ → ℕ
minus used size = (used + u64_mod - size % u64_mod) % u64_mod

abbrev pub plus : ℕ → ℕ → ℕ
plus used size = (used + size) % u64_mod

-- The iterator and the node that the index has for the key.
unfoldable pub entry_of : DataBuffer → BufferKey → Option (ℕ × Node)
entry_of b key = elim (index_find key b.index) [
  | none ↦ none
  | some it ↦ elim (node_at it b.lru) [ none ↦ none | some n ↦ some (it, n) ]
]

-- `used_ -= ...; lru_.erase(it); index_.erase(it);`
unfoldable pub drop_entry : DataBuffer → BufferKey → ℕ → Node → DataBuffer
drop_entry b key it n = record b {
  used = minus b.used (length n.bytes);
  lru = erase_node it b.lru;
  index = index_erase key b.index;
}

unfoldable pub last_of : List Node → Option Node
last_of [] = none
last_of (n ∷ lru) = elim (last_of lru) [ none ↦ some n | some m ↦ some m ]

unfoldable pub without_last : List Node → List Node
without_last [] = []
without_last (n ∷ lru) = elim (last_of lru) [ none ↦ [] | some m ↦ n ∷ without_last lru ]

-- `used_ -= oldest.second.size(); index_.erase(oldest.first); lru_.pop_back();`
abbrev pub drop_oldest : DataBuffer → Node → DataBuffer
drop_oldest b oldest = record b {
  used = minus b.used (length oldest.bytes);
  lru = without_last b.lru;
  index = index_erase oldest.key b.index;
}

-- The loop of `Put`, which takes a node off in each round; the fuel is the number of nodes.
unfoldable pub evict : ℕ → ℕ → DataBuffer → DataBuffer
evict zero size b = b
evict (suc fuel) size b = elim (last_of b.lru) [
  | none ↦ b
  | some oldest ↦
      let rest = evict fuel size (drop_oldest b oldest) in
      if ltb b.capacity (plus b.used size) then rest else b
]

unfoldable pub push_front : DataBuffer → BufferKey → Bytes → DataBuffer
push_front b key payload = record b {
  used = plus b.used (length payload);
  lru = record { iterator = b.next_iterator; key = key; bytes = payload } ∷ b.lru;
  index = (key, b.next_iterator) ∷ index_erase key b.index;
  next_iterator = b.next_iterator + 1;
}

-- The first branch of `Put`: an entry of the same key goes.
unfoldable pub drop_existing : DataBuffer → BufferKey → DataBuffer
drop_existing b key = elim (entry_of b key) [ none ↦ b | some (it, n) ↦ drop_entry b key it n ]

unfoldable pub put : DataBuffer → BufferKey → Bytes → DataBuffer
put b key payload =
    let b' = drop_existing b key in
    push_front (evict (length b'.lru) (length payload) b') key payload

unfoldable pub take_data : DataBuffer → BufferKey → DataBuffer × Option Bytes
take_data b key = elim (entry_of b key) [
  | none ↦ (b, none)
  | some (it, n) ↦ (drop_entry b key it n, some n.bytes)
]

unfoldable pub size_of : DataBuffer → BufferKey → Option ℕ
size_of b key = elim (entry_of b key) [ none ↦ none | some (it, n) ↦ some (length n.bytes) ]

unfoldable pub bytes_in_use : DataBuffer → ℕ
bytes_in_use b = b.used

unfoldable pub entry_count : DataBuffer → ℕ
entry_count b = length b.lru
