-- ===== src/Master/ChunkTable/Located.antt =====
-- The reverse index agrees with the locations, call by call.
use gfs_impl_cpp.Base.{
  if◌then◌else◌, Option-cases, ℕ, ◌≡◌, refl, inl, inr, ite, Bool, true, false, Option, none, some,
  List, [], ◌∷◌, arith, ℕ_discrete,
}
use gfs_impl_cpp.Base.Bytes.{Bytes, bytes_discrete, bytes_key}
use gfs_impl_cpp.Base.Int.{ℤ}
use gfs_impl_cpp.Base.Map.{
  nat_key, Map, Set, lookup, insert, erase, contains, lookup-insert, lookup-erase, contains-cons,
  contains-insert, contains-erase,
}
use gfs_impl_cpp.Master.ChunkTable.{
  ChunkMeta, fresh_meta, ChunkTable, find, put, create, is_empty, drop_held, drop_all, erase_chunk,
  handles_of, add_location, remove_location, empty,
}

-- `handle` stands in the set of `server`.
abbrev pub holds : Map Bytes (Set ℕ) → Bytes → ℕ → Bool
holds held_by server handle = contains handle (handles_of server held_by)

abbrev pub locations_of : Option ChunkMeta → Map Bytes ℤ
locations_of none = []
locations_of (some m) = m.locations

-- `server` stands among the locations of `handle`.
abbrev pub located : Map ℕ ChunkMeta → Bytes → ℕ → Bool
located chunks server handle = contains server (locations_of (lookup handle chunks))

abbrev pub IsIndexed : ChunkTable → Type 0
IsIndexed t =
    (server : Bytes) (handle : ℕ) → holds t.held_by server handle ≡ located t.chunks server handle

pub contains-is_empty : (g : ℕ) (s : Set ℕ) → is_empty s ≡ true → contains g s ≡ false
unfolding contains lookup
contains-is_empty g [] h = refl
contains-is_empty g (x ∷ s) h = cc

pub contains-nil : (g : ℕ) → contains {V = Unit {0}} g [] ≡ false
unfolding contains lookup
contains-nil g = refl

pub contains-nil_of : (s : Bytes) → contains {V = ℤ} s [] ≡ false
unfolding contains lookup
contains-nil_of s = refl

pub holds-drop_held :
    (s q : Bytes) (h g : ℕ) (held_by : Map Bytes (Set ℕ))
    → holds (drop_held s h held_by) q g
      ≡ ite
          (bytes_discrete q s)
          (ite (ℕ_discrete g h) false (holds held_by q g))
          (holds held_by q g)
unfolding handles_of drop_held
holds-drop_held s q h g held_by = elim (Option-cases (lookup s held_by)) [
  | inl e ↦ ground (arith, contains-nil g)
  | inr (held, e) ↦ ground (
    arith,
    lookup-insert q s (erase h held) held_by,
    lookup-erase q s held_by,
    contains-erase g h held,
    contains-is_empty g (erase h held),
    contains-nil g,
  )
]

pub holds-drop_all :
    (l : Map Bytes ℤ) (q : Bytes) (h g : ℕ) (held_by : Map Bytes (Set ℕ))
    → holds (drop_all l h held_by) q g
      ≡ (if contains q l then ite (ℕ_discrete g h) false (holds held_by q g) else holds held_by q g)
unfolding drop_all
holds-drop_all [] q h g held_by = rw (contains-nil_of q)
holds-drop_all ((s, w) ∷ l) q h g held_by = ground (
  arith,
  contains-cons q s w l,
  holds-drop_all l q h g (drop_held s h held_by),
  holds-drop_held s q h g held_by,
)

pub create-IsIndexed :
    (t : ChunkTable) (handle version : ℕ) → IsIndexed t → IsIndexed (create t handle version)
unfolding create
create-IsIndexed t handle version v s g = ground (
  arith,
  v s g,
  lookup-insert g handle (record fresh_meta { version = version }) t.chunks,
  Option-cases (lookup handle t.chunks),
)

-- A write through the pointer that leaves the locations alone.
pub put-IsIndexed :
    (t : ChunkTable) (handle : ℕ) (m m' : ChunkMeta)
    → find t handle ≡ some m
    → m'.locations ≡ m.locations
    → IsIndexed t
    → IsIndexed (put t handle m')
unfolding put find
put-IsIndexed t handle m m' e same v s g = ground (arith, v s g, lookup-insert g handle m' t.chunks)

pub erase_chunk-IsIndexed :
    (t : ChunkTable) (handle : ℕ) → IsIndexed t → IsIndexed (erase_chunk t handle)
unfolding erase_chunk
erase_chunk-IsIndexed t handle v s g = elim (Option-cases (lookup handle t.chunks)) [
  | inl e ↦ rw (e, erase_chunk) (v s g)
  | inr (m, e) ↦ ground (
    arith,
    v s g,
    lookup-erase g handle t.chunks,
    holds-drop_all m.locations s handle g t.held_by,
    contains-nil_of s,
  )
]

pub holds-insert :
    (s q : Bytes) (h g : ℕ) (held_by : Map Bytes (Set ℕ))
    → holds (insert s (insert h tt (handles_of s held_by)) held_by) q g
      ≡ ite (bytes_discrete q s) (ite (ℕ_discrete g h) true (holds held_by q g)) (holds held_by q g)
unfolding handles_of
holds-insert s q h g held_by = ground (
  arith,
  lookup-insert q s (insert h tt (handles_of s held_by)) held_by,
  contains-insert g h tt (handles_of s held_by),
)

pub add_location-IsIndexed :
    (t : ChunkTable) (handle : ℕ) (server : Bytes) (when : ℤ)
    → IsIndexed t
    → IsIndexed (add_location t handle server when).0
unfolding add_location
add_location-IsIndexed t handle server when v s g = elim (Option-cases (lookup handle t.chunks)) [
  | inl e ↦ rw (e, add_location) (v s g)
  | inr (m, e) ↦ ground (
    arith,
    v s g,
    holds-insert server s handle g t.held_by,
    lookup-insert g handle (record m { locations = insert server when m.locations }) t.chunks,
    contains-insert s server when m.locations,
  )
]

pub remove_location-IsIndexed :
    (t : ChunkTable) (handle : ℕ) (server : Bytes)
    → IsIndexed t
    → IsIndexed (remove_location t handle server).0
unfolding remove_location
remove_location-IsIndexed t handle server v s g = elim (Option-cases (lookup handle t.chunks)) [
  | inl e ↦ rw (e, remove_location) (v s g)
  | inr (m, e) ↦ ground (
    arith,
    v s g,
    holds-drop_held server s handle g t.held_by,
    lookup-insert g handle (record m { locations = erase server m.locations }) t.chunks,
    contains-erase s server m.locations,
  )
]

-- The calls of the table, with the writes through a found pointer that leave the locations alone.
pub data Call : Type 0 where
  creates : ℕ → ℕ → Call
  erases : ℕ → Call
  adds : ℕ → Bytes → ℤ → Call
  removes : ℕ → Bytes → Call
  writes : ℕ → (ChunkMeta → ChunkMeta) → Call
  clears : Call

-- What `write` leaves in the entry: its own locations.
abbrev pub keep_locations : ChunkMeta → ChunkMeta → ChunkMeta
keep_locations m m' = record m' { locations = m.locations }

unfoldable pub after : ChunkTable → Call → ChunkTable
after t (creates handle version) = create t handle version
after t (erases handle) = erase_chunk t handle
after t (adds handle server when) = (add_location t handle server when).0
after t (removes handle server) = (remove_location t handle server).0
after t (writes handle f) = elim (find t handle) [
  | none ↦ t
  | some m ↦ put t handle (keep_locations m (f m))
]
after t clears = empty

unfoldable pub run : ChunkTable → List Call → ChunkTable
run t [] = t
run t (c ∷ cs) = run (after t c) cs

pub empty-IsIndexed : IsIndexed empty
unfolding handles_of contains lookup
empty-IsIndexed s g = refl

pub after-IsIndexed : (t : ChunkTable) (c : Call) → IsIndexed t → IsIndexed (after t c)
unfolding after
after-IsIndexed t (creates handle version) v = create-IsIndexed t handle version v
after-IsIndexed t (erases handle) v = erase_chunk-IsIndexed t handle v
after-IsIndexed t (adds handle server when) v = add_location-IsIndexed t handle server when v
after-IsIndexed t (removes handle server) v = remove_location-IsIndexed t handle server v
after-IsIndexed t (writes handle f) v = elim (Option-cases (find t handle)) [
  | inl e ↦ rw (e, after) v
  | inr (m, e) ↦ rw (e, after) (put-IsIndexed t handle m (keep_locations m (f m)) e refl v)
]
after-IsIndexed t clears v = empty-IsIndexed

pub run-IsIndexed : (t : ChunkTable) (cs : List Call) → IsIndexed t → IsIndexed (run t cs)
unfolding run
run-IsIndexed t [] v = v
run-IsIndexed t (c ∷ cs) v = run-IsIndexed (after t c) cs (after-IsIndexed t c v)
