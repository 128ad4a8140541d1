-- ===== src/Master/Registry/Sweeps.antt =====
-- What heartbeats and sweeps mean for the servers that resolve.
use gfs_impl_cpp.Base.{
  if◌then◌else◌, ◌≡◌, refl, ◌∙◌, Bool, true, false, ◌||◌, Option, none, some, List, [], ◌∷◌, arith,
}
use gfs_impl_cpp.Base.Bytes.{Bytes, bytes_key}
use gfs_impl_cpp.Base.Int.{ℤ, ◌-ℤ◌, ltb_ℤ}
use gfs_impl_cpp.Base.Map.{nat_key, lookup, insert, lookup-insert, Above, IsSorted}
use gfs_impl_cpp.Common.Paths.{bytes_eq}
use gfs_impl_cpp.Master.Registry.{ChunkserverInfo, Servers, touch, get, resolve, is_late, sweep}

-- The server is taken for alive, and its last heartbeat is longer ago than the timeout.
abbrev pub late : ℤ → ℤ → Option ChunkserverInfo → Bool
late timeout now none = false
late timeout now (some info) =
    if info.alive then ltb_ℤ timeout (now -ℤ info.last_heartbeat) else false

abbrev pub swept : ℤ → ℤ → Option ChunkserverInfo → Option ChunkserverInfo
swept timeout now none = none
swept timeout now (some info) =
    if is_late timeout now info then some (record info { alive = false }) else some info

lookup-sweep :
    (timeout now : ℤ) (servers : Servers) (q : Bytes)
    → lookup q (sweep timeout now servers).0 ≡ swept timeout now (lookup q servers)
unfolding sweep lookup
lookup-sweep timeout now [] q = refl
lookup-sweep timeout now ((id, info) ∷ servers) q =
    ground (arith, lookup-sweep timeout now servers q)

abbrev pub names : List Bytes → Bytes → Bool
names [] q = false
names (id ∷ ids) q = bytes_eq q id || names ids q

names-Above :
    (timeout now : ℤ) (q : Bytes) (servers : Servers)
    → Above q servers
    → names (sweep timeout now servers).1 q ≡ false
unfolding sweep
names-Above timeout now q [] v = refl
names-Above timeout now q ((id, info) ∷ servers) v =
    ground (arith, names-Above timeout now q servers v.1, bytes_key.lt_irrefl q)

sweep-Above :
    (timeout now : ℤ) (q : Bytes) (servers : Servers)
    → Above q servers
    → Above q (sweep timeout now servers).0
unfolding sweep
sweep-Above timeout now q [] v = tt
sweep-Above timeout now q ((id, info) ∷ servers) v =
    ground (arith, sweep-Above timeout now q servers v.1)

sweep-IsSorted :
    (timeout now : ℤ) (servers : Servers)
    → IsSorted servers
    → IsSorted (sweep timeout now servers).0
unfolding sweep
sweep-IsSorted timeout now [] v = tt
sweep-IsSorted timeout now ((id, info) ∷ servers) v =
    ground (arith, sweep-IsSorted timeout now servers v.1, sweep-Above timeout now id servers v.0)

names-sweep :
    (timeout now : ℤ) (servers : Servers) (q : Bytes)
    → IsSorted servers
    → names (sweep timeout now servers).1 q ≡ late timeout now (lookup q servers)
unfolding sweep lookup
names-sweep timeout now [] q v = refl
names-sweep timeout now ((id, info) ∷ servers) q v =
    ground (arith, names-sweep timeout now servers q v.1, names-Above timeout now id servers v.0)

-- A sweep names exactly the servers that were alive and whose last heartbeat is longer ago than the
-- timeout; these do not resolve any more, and every other server resolves as before. A server that a
-- sweep named is not named by the next sweep, however late it comes.
pub resolve-sweep :
    (timeout now later : ℤ) (servers : Servers) (q : Bytes)
    → IsSorted servers
    → let late_one = late timeout now (get servers q) in
      (names (sweep timeout now servers).1 q ≡ late_one)
      × (resolve (sweep timeout now servers).0 q ≡ (if late_one then none else resolve servers q))
      × (late_one ≡ true → names (sweep timeout later (sweep timeout now servers).0).1 q ≡ false)
unfolding get resolve
resolve-sweep timeout now later servers q v = (
  names-sweep timeout now servers q v,
  ground (arith, lookup-sweep timeout now servers q),
  λ named.
      names-sweep timeout later (sweep timeout now servers).0 q
        (sweep-IsSorted timeout now servers v)
      ∙ ground (arith, lookup-sweep timeout now servers q, named),
)

-- A server that sent a heartbeat resolves to the address it sent, until a sweep that comes more than
-- the timeout later, whatever the servers were before.
pub resolve-touch :
    (servers : Servers) (id address rack : Bytes) (when timeout now : ℤ)
    → resolve (sweep timeout now (touch servers id address rack when).0).0 id ≡ (
        if ltb_ℤ timeout (now -ℤ when)
        then none
        else some (record { chunkserver_id = id; address = address; rack = rack }))
unfolding resolve touch
resolve-touch servers id address rack when timeout now =
    let info : ChunkserverInfo = record {
      id = id;
      address = address;
      rack = rack;
      last_heartbeat = when;
      alive = true;
    } in
    ground (
      arith,
      lookup-sweep timeout now (insert id info servers) id,
      lookup-insert id id info servers,
    )
