-- ===== src/Chunkserver/DataBuffer/Bounds.antt =====
-- The bytes in use are those of the entries, and stay within the capacity.
use mathlib.Core.Option.{some-injective, none-ne-some}
use gfs_impl_cpp.Base.{
  ltb, ◌==◌, Bool-cases, Option-cases, length, ℕ, zero, suc, ◌+◌, ◌≤◌, ◌<◌, max, ◌≡◌, refl, sym, ap,
  ◌∙◌, ◌⊎◌, inl, inr, none, some, List, [], ◌∷◌, arith,
}
use gfs_impl_cpp.Base.Bytes.{Bytes, bytes_key}
use gfs_impl_cpp.Base.Map.{nat_key}
use gfs_impl_cpp.Chunkserver.DataBuffer.{
  u64_mod, BufferKey, Node, DataBuffer, plus, index_find, node_at, erase_node, entry_of, drop_entry,
  last_of, without_last, drop_oldest, drop_existing, evict, push_front, put,
}

abbrev pub bytes_of : List Node → ℕ
bytes_of [] = 0
bytes_of (n ∷ lru) = length n.bytes + bytes_of lru

-- `used_` is the number of bytes that the entries hold.
abbrev pub IsAccounted : DataBuffer → Type 0
IsAccounted b = (b.used ≡ bytes_of b.lru) × (bytes_of b.lru < u64_mod)

bytes_of-erase_node :
    (it : ℕ) (lru : List Node) (n : Node)
    → node_at it lru ≡ some n
    → bytes_of (erase_node it lru) + length n.bytes ≡ bytes_of lru
unfolding node_at erase_node
bytes_of-erase_node it [] n e = cc
bytes_of-erase_node it (m ∷ lru) n e = elim (Bool-cases (m.iterator == it)) [
  | inl b ↦
      let same : m ≡ n = some-injective m n (sym (rw (b, node_at) refl) ∙ e) in
      rw (b, erase_node) (omega (arith, ap (λ (x : Node). length x.bytes) same))
  | inr b ↦
      let there : node_at it lru ≡ some n = sym (rw (b, node_at) refl) ∙ e in
      rw (b, erase_node) (omega (arith, bytes_of-erase_node it lru n there))
]

last_of-none : (lru : List Node) → last_of lru ≡ none → lru ≡ []
unfolding last_of
last_of-none [] e = refl
last_of-none (m ∷ lru) e = elim (Option-cases (last_of lru)) [
  | inl k ↦ absurd (none-ne-some m (sym e ∙ (rw (k, last_of) refl)))
  | inr (o, k) ↦ absurd (none-ne-some o (sym e ∙ (rw (k, last_of) refl)))
]

bytes_of-without_last :
    (lru : List Node) (n : Node)
    → last_of lru ≡ some n
    → (bytes_of (without_last lru) + length n.bytes ≡ bytes_of lru)
      × (length (without_last lru) + 1 ≡ length lru)
unfolding last_of without_last
bytes_of-without_last [] n e = cc
bytes_of-without_last (m ∷ lru) n e = elim (Option-cases (last_of lru)) [
  | inl k ↦
      let same : m ≡ n = some-injective m n (sym (rw (k, last_of) refl) ∙ e) in
      let nothing = last_of-none lru k in
      rw (k, without_last, nothing) (omega (arith, ap (λ (x : Node). length x.bytes) same), refl)
  | inr (o, k) ↦
      let same : o ≡ n = some-injective o n (sym (rw (k, last_of) refl) ∙ e) in
      let (sum, count) = bytes_of-without_last lru n (k ∙ ap some same) in
      rw (k, without_last) (omega (arith, sum), omega (arith, count))
]

-- What the loop of `Put` leaves: room for the data, or nothing.
abbrev HasRoom : ℕ → DataBuffer → Type 0
HasRoom size b = (bytes_of b.lru + size ≤ b.capacity) ⊎ (b.lru ≡ [])

nothing_left : (lru : List Node) → length lru ≤ 0 → lru ≡ []
nothing_left [] h = refl
nothing_left (n ∷ lru) h = absurd (omega arith)

evict-HasRoom :
    (fuel size : ℕ) (b : DataBuffer)
    → IsAccounted b
    → bytes_of b.lru + size < u64_mod
    → length b.lru ≤ fuel
    → IsAccounted (evict fuel size b)
      × (bytes_of (evict fuel size b).lru ≤ bytes_of b.lru)
      × HasRoom size (evict fuel size b)
      × ((evict fuel size b).capacity ≡ b.capacity)
unfolding evict
evict-HasRoom zero size b a small f = (a, omega arith, inr (nothing_left b.lru f), refl)
evict-HasRoom (suc fuel) size b a small f = elim (Option-cases (last_of b.lru)) [
  | inl k ↦ rw (k, evict) (a, omega arith, inr (last_of-none b.lru k), refl)
  | inr (oldest, k) ↦
      let b' = drop_oldest b oldest in
      let (sum, count) = bytes_of-without_last b.lru oldest k in
      let used : b.used ≡ bytes_of b.lru = a.0 in
      let bounded : bytes_of b.lru < u64_mod = a.1 in
      let a' : IsAccounted b' = (omega (arith, sum, used, bounded), omega (arith, sum, bounded)) in
      let rest =
        evict-HasRoom fuel size b' a' (omega (arith, sum, small)) (omega (arith, count, f)) in
      elim (Bool-cases (ltb b.capacity (plus b.used size))) [
        | inl t ↦ rw (k, evict, t) (rest.0, omega (arith, rest.1, sum), rest.2, rest.3)
        | inr t ↦ rw (k, evict, t) (a, omega arith, inl (ground (arith, used, small, t)), refl)
      ]
]

entry_of-node :
    (b : DataBuffer) (key : BufferKey) (it : ℕ) (n : Node)
    → entry_of b key ≡ some (it, n)
    → node_at it b.lru ≡ some n
unfolding entry_of
entry_of-node b key it n e = elim (Option-cases (index_find key b.index)) [
  | inl k ↦ absurd (none-ne-some (it, n) (sym (rw (k, entry_of) refl) ∙ e))
  | inr (j, k) ↦ elim (Option-cases (node_at j b.lru)) [
    | inl l ↦ absurd (none-ne-some (it, n) (sym (rw (k, entry_of, l) refl) ∙ e))
    | inr (m, l) ↦
        let same : ◌≡◌ {A = ℕ × Node} (j, m) (it, n) =
          some-injective (j, m) (it, n) (sym (rw (k, entry_of, l) refl) ∙ e) in
        ap (λ (x : ℕ). node_at x b.lru) (sym (ap (λ x. x.0) same)) ∙ (l ∙ ap (λ x. some x.1) same)
  ]
]

drop_entry-IsAccounted :
    (b : DataBuffer) (key : BufferKey) (it : ℕ) (n : Node)
    → entry_of b key ≡ some (it, n)
    → IsAccounted b
    → IsAccounted (drop_entry b key it n)
      × (bytes_of (drop_entry b key it n).lru + length n.bytes ≡ bytes_of b.lru)
unfolding drop_entry entry_of
drop_entry-IsAccounted b key it n e a =
    let sum = bytes_of-erase_node it b.lru n (entry_of-node b key it n e) in
    let used : b.used ≡ bytes_of b.lru = a.0 in
    let bounded : bytes_of b.lru < u64_mod = a.1 in
    ((omega (arith, sum, used, bounded), omega (arith, sum, bounded)), sum)

push_front-IsAccounted :
    (b : DataBuffer) (key : BufferKey) (payload : Bytes)
    → IsAccounted b
    → bytes_of b.lru + length payload < u64_mod
    → IsAccounted (push_front b key payload)
unfolding push_front
push_front-IsAccounted b key payload a small =
    let used : b.used ≡ bytes_of b.lru = a.0 in (omega (arith, used, small), omega (arith, small))

used-push_front :
    (b : DataBuffer) (key : BufferKey) (payload : Bytes)
    → IsAccounted b
    → bytes_of b.lru + length payload < u64_mod
    → (push_front b key payload).used ≡ bytes_of b.lru + length payload
unfolding push_front
used-push_front b key payload a small =
    let used : b.used ≡ bytes_of b.lru = a.0 in omega (arith, used, small)

drop_existing-IsAccounted :
    (b : DataBuffer) (key : BufferKey)
    → IsAccounted b
    → IsAccounted (drop_existing b key)
      × (bytes_of (drop_existing b key).lru ≤ bytes_of b.lru)
      × ((drop_existing b key).capacity ≡ b.capacity)
unfolding drop_existing
drop_existing-IsAccounted b key a = elim (Option-cases (entry_of b key)) [
  | inl k ↦ rw (k, drop_existing) (a, omega arith, refl)
  | inr ((it, n), k) ↦
      let (d, e) = drop_entry-IsAccounted b key it n k a in
      rw (k, drop_existing) (d, omega (arith, e), unfold drop_entry in refl)
]

-- `Put` keeps the count of the bytes in use exact, and these stay within the capacity unless the new
-- data alone is larger than it, if they add up to less than 2^64 with the new data.
pub put-IsAccounted :
    (b : DataBuffer) (key : BufferKey) (payload : Bytes)
    → IsAccounted b
    → bytes_of b.lru + length payload < u64_mod
    → IsAccounted (put b key payload) × ((put b key payload).used ≤ max b.capacity (length payload))
unfolding put
put-IsAccounted b key payload a small =
    let (d, less, c) = drop_existing-IsAccounted b key a in
    let b' = drop_existing b key in
    let (e, fewer, room, c') =
      evict-HasRoom (length b'.lru) (length payload) b' d (omega (arith, less, small))
        (omega arith) in
    let b'' = evict (length b'.lru) (length payload) b' in
    let p = push_front-IsAccounted b'' key payload e (omega (arith, less, fewer, small)) in
    (
      p,
      elim room [
        | inl fits ↦
            rw (used-push_front b'' key payload e (omega (arith, less, fewer, small)))
              (omega (arith, fits, c, c'))
        | inr empty ↦
            rw (used-push_front b'' key payload e (omega (arith, less, fewer, small)), empty)
              (omega arith)
      ],
    )
