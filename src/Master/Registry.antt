-- ===== src/Master/Registry.antt =====
-- src/master/chunkserver_registry.h and chunkserver_registry.cc: which chunkservers the master knows
-- and takes for alive. The channels and the log output are left out.
pub mod Sweeps
use gfs_impl_cpp.Base.{
  if◌then◌else◌, Bool, true, false, not, ◌&&◌, Option, none, some, List, [], ◌∷◌,
}
use gfs_impl_cpp.Base.Bytes.{Bytes, bytes_key}
use gfs_impl_cpp.Base.Int.{ℤ, ◌-ℤ◌, ltb_ℤ}
use gfs_impl_cpp.Base.Map.{nat_key, Map, lookup, insert}
use gfs_impl_cpp.Common.Replica.{Replica}

pub record ChunkserverInfo : Type 0 where
  pub id : Bytes
  pub address : Bytes
  pub rack : Bytes
  pub last_heartbeat : ℤ
  pub alive : Bool

abbrev pub Servers : Type 0
Servers = Map Bytes ChunkserverInfo

abbrev pub was_alive : Option ChunkserverInfo → Bool
was_alive none = false
was_alive (some info) = info.alive

-- The result tells whether the server is newly alive: `inserted || !info.alive`.
unfoldable pub touch : Servers → Bytes → Bytes → Bytes → ℤ → Servers × Bool
touch servers id address rack when = (
  insert id
      (record { id = id; address = address; rack = rack; last_heartbeat = when; alive = true })
      servers,
  not (was_alive (lookup id servers)),
)

unfoldable pub get : Servers → Bytes → Option ChunkserverInfo
get servers id = lookup id servers

unfoldable pub resolve : Servers → Bytes → Option Replica
resolve servers id = elim (lookup id servers) [
  | none ↦ none
  | some info ↦
      if not info.alive
      then none
      else some (record { chunkserver_id = id; address = info.address; rack = info.rack })
]

unfoldable pub alive_servers : Servers → List ChunkserverInfo
alive_servers [] = []
alive_servers ((id, info) ∷ servers) =
    let rest = alive_servers servers in if info.alive then info ∷ rest else rest

-- `info.alive && now - info.last_heartbeat > config_.chunkserver_dead_timeout`
abbrev pub is_late : ℤ → ℤ → ChunkserverInfo → Bool
is_late timeout now info = info.alive && ltb_ℤ timeout (now -ℤ info.last_heartbeat)

unfoldable pub sweep : ℤ → ℤ → Servers → Servers × List Bytes
sweep timeout now [] = ([], [])
sweep timeout now ((id, info) ∷ servers) =
    let rest = sweep timeout now servers in
    if is_late timeout now info
    then ((id, record info { alive = false }) ∷ rest.0, id ∷ rest.1)
    else ((id, info) ∷ rest.0, rest.1)
