-- ===== src/Chunkserver/ChunkStore/Checked.antt =====
-- `RecomputeBlocks`, `Write` and `Pad` of src/chunkserver/chunk_store.cc leave an entry whose checksums
-- agree with its file.
use gfs_impl_cpp.Base.{
  ltb, leb, ◌==◌, Bool-cases, length, get_elem?, take, drop, length-append, length-take,
  length-drop, drop-take, take-take, ℕ, zero, suc, ◌+◌, ◌-◌, ◌*◌, ◌≤◌, ◌<◌, max, min, ◌≡◌, refl,
  sym, ap, ◌∙◌, inl, inr, true, false, some, List, [], ◌∷◌, ◌++◌, arith, dec_lt,
}
use gfs_impl_cpp.Base.Bytes.{Bytes, bytes_key}
use gfs_impl_cpp.Base.Map.{nat_key}
use gfs_impl_cpp.Common.Framing.{crc32}
use gfs_impl_cpp.Chunkserver.ChunkStore.Files.{
  off_limit, zeros, is_nil, write_at, pwrite_all, pread_all, encode_sums,
}
use gfs_impl_cpp.Chunkserver.ChunkStore.Entries.{
  faultless, ChunkEntry, meta_header_size, blocks_of, block_sums, grow, recompute_blocks,
}
use gfs_impl_cpp.Chunkserver.ChunkStore.Blocks.{
  get_elem?-left, get_elem?-right, get_elem?-take, drop-drop, take-all, drop-all, blocks_of-exact,
  lt-blocks_of, sum_at, get_elem?-block_sums, length-block_sums, IsChecked,
}
use native.Mathlib.Nat.{div-le_self, lt-div-mul-add, add-mul}
use mathlib.Core.List.{append-nil}

pub length-zeros : (n : ℕ) → length (zeros n) ≡ n
length-zeros zero = refl
length-zeros (suc n) = ap suc (length-zeros n)

take-left : (n : ℕ) (xs ys : List ℕ) → n ≤ length xs → take n (xs ++ ys) ≡ take n xs
take-left zero xs ys h = refl
take-left (suc n) [] ys h = absurd (omega (arith, h))
take-left (suc n) (x ∷ xs) ys h = ap (◌∷◌ x) (take-left n xs ys (omega (arith, h)))

module _ (zlib : ℕ → Bytes → ℕ → ℕ) (bs : ℕ) (positive : 0 < bs) where
  -- What `RecomputeBlocks` finds: the file and its length are new, and the checksums before `first` are
  -- still right.
  pub record IsStale (entry : ChunkEntry) (first : ℕ) : Type 0 where
    pub size : length entry.chunk ≡ entry.length
    pub small : 8 + 4 * (entry.length + bs) < off_limit
    pub starts : first * bs < entry.length
    pub known : first ≤ length entry.checksums
    pub few : length entry.checksums ≤ blocks_of bs entry.length
    pub sums :
        (b : ℕ) → b < first → get_elem? entry.checksums b ≡ some (sum_at zlib bs entry.chunk b)

  abbrev pub fresh_sums : ChunkEntry → ℕ → List ℕ
  fresh_sums entry first =
      block_sums zlib bs (blocks_of bs entry.length - first) (drop (first * bs) entry.chunk)

  abbrev pub recomputed : ChunkEntry → ℕ → ChunkEntry
  recomputed entry first = record entry {
    checksums = take first entry.checksums ++ fresh_sums entry first;
    meta =
        write_at (encode_sums (fresh_sums entry first)) (meta_header_size + 4 * first) entry.meta;
  }

  module _ (entry : ChunkEntry) (first last_block : ℕ) (v : IsStale entry first)
      (reaches : blocks_of bs entry.length ≤ last_block + 1) where
    below : first < blocks_of bs entry.length
    below = lt-blocks_of bs entry.length positive (omega (arith, v.small)) first v.starts

    few_blocks : blocks_of bs entry.length < entry.length + bs
    few_blocks =
        rw (blocks_of-exact bs entry.length positive (omega (arith, v.small)))
          (omega (arith, div-le_self (entry.length + bs - 1) bs, positive))

    covers : entry.length ≤ blocks_of bs entry.length * bs
    covers =
        rw (blocks_of-exact bs entry.length positive (omega (arith, v.small)))
          (omega (arith, lt-div-mul-add {a = entry.length + bs - 1} positive, positive))

    pread_tail :
        pread_all true (entry.length - first * bs) (first * bs) entry.chunk
        ≡ some (drop (first * bs) entry.chunk)
    unfolding pread_all
    pread_tail =
        let full : length (drop (first * bs) entry.chunk) ≤ entry.length - first * bs =
          omega (arith, length-drop (first * bs) entry.chunk, v.size) in
        let some_bytes : (entry.length - first * bs == 0) ≡ false = ground (arith, v.starts) in
        let there : leb (first * bs + (entry.length - first * bs)) (length entry.chunk) ≡ true =
          ground (arith, v.starts, v.size) in
        rw (some_bytes, there)
          (ap some (take-all (entry.length - first * bs) (drop (first * bs) entry.chunk) full))

    pub recompute_blocks-all :
        recompute_blocks zlib bs faultless entry first last_block ≡ (recomputed entry first, true)
    unfolding recompute_blocks pwrite_all grow
    recompute_blocks-all =
        let n = blocks_of bs entry.length in
        let e1 : (n == 0) ≡ false = ground (arith, below) in
        let e2 : min last_block (n - 1) ≡ n - 1 = omega (arith, reaches) in
        let e3 : ltb (n - 1) first ≡ false = ground (arith, below) in
        let e4 : n - 1 + 1 ≡ n = omega (arith, below) in
        let e5 : min (n * bs) entry.length ≡ entry.length = omega (arith, covers) in
        rw (e2, e1, e3, e4, e5, pread_tail)
          (let e6 : min last_block (n - 1) - first + 1 ≡ n - first = omega (arith, e2, below) in
            let e7 : min last_block (n - 1) + 1 ≡ n = omega (arith, e2, e4) in
            let e8 : leb off_limit (meta_header_size + 4 * first) ≡ false =
              ground (arith, below, few_blocks, v.small) in
            rw
              (
                e6,
                e7,
                e8,
                take-left first entry.checksums (zeros (n - length entry.checksums)) v.known,
                drop-all n (entry.checksums ++ zeros (n - length entry.checksums)) (
                    omega (
                      arith,
                      length-append entry.checksums (zeros (n - length entry.checksums)),
                      length-zeros (n - length entry.checksums),
                      v.few,
                    )),
                append-nil (fresh_sums entry first),
              )
              refl)

    length-recomputed : length (recomputed entry first).checksums ≡ blocks_of bs entry.length
    length-recomputed = omega (
      arith,
      length-append (take first entry.checksums) (fresh_sums entry first),
      length-take first entry.checksums,
      length-block_sums zlib bs (blocks_of bs entry.length - first) (drop (first * bs) entry.chunk),
      v.known,
      below,
    )

    length-kept : length (take first entry.checksums) ≡ first
    length-kept = omega (arith, length-take first entry.checksums, v.known)

    sums-recomputed :
        (b : ℕ)
        → b < blocks_of bs entry.length
        → get_elem? (recomputed entry first).checksums b ≡ some (sum_at zlib bs entry.chunk b)
    sums-recomputed b h = elim (dec_lt b first) [
      | yes p ↦
          get_elem?-left (take first entry.checksums) (fresh_sums entry first) b
            (omega (arith, p, length-kept))
          ∙ get_elem?-take first entry.checksums b p
          ∙ v.sums b p
      | no p ↦
          let i = b - length (take first entry.checksums) in
          let tail = drop (first * bs) entry.chunk in
          let e : i ≡ b - first = omega (arith, length-kept) in
          let f : first + (b - first) ≡ b = omega (arith, p) in
          let g : first * bs + (b - first) * bs ≡ b * bs =
            sym (add-mul first (b - first) bs) ∙ ap (λ (n : ℕ). n * bs) f in
          get_elem?-right (take first entry.checksums) (fresh_sums entry first) b
            (omega (arith, p, length-kept))
          ∙ ap (get_elem? (fresh_sums entry first)) e
          ∙ get_elem?-block_sums zlib bs (blocks_of bs entry.length - first) tail (b - first)
              (omega (arith, h, p))
          ∙ ap (λ (file : Bytes). some (crc32 zlib (take bs file)))
              (drop-drop ((b - first) * bs) (first * bs) entry.chunk
                ∙ ap (λ (n : ℕ). drop n entry.chunk) g)
    ]

    pub recomputed-IsChecked : IsChecked zlib bs (recomputed entry first)
    recomputed-IsChecked = record {
      size = v.size;
      count = length-recomputed;
      sums = λ b h. sums-recomputed b (omega (arith, h, length-recomputed));
    }

pub length-write_at :
    (payload : Bytes) (offset : ℕ) (file : Bytes)
    → is_nil payload ≡ false
    → length (write_at payload offset file) ≡ max (length file) (offset + length payload)
unfolding write_at
length-write_at payload offset file e =
    let padded = file ++ zeros (offset - length file) in
    let rest = drop (offset + length payload) file in
    rw e (
      omega (
        arith,
        length-append (take offset padded) (payload ++ rest),
        length-append payload rest,
        length-take offset padded,
        length-append file (zeros (offset - length file)),
        length-zeros (offset - length file),
        length-drop (offset + length payload) file,
      ))

-- A write leaves what lies before it.
take-write_at :
    (k : ℕ) (payload : Bytes) (offset : ℕ) (file : Bytes)
    → k ≤ offset
    → k ≤ length file
    → take k (write_at payload offset file) ≡ take k file
unfolding write_at
take-write_at k payload offset file h l = elim (Bool-cases (is_nil payload)) [
  | inl e ↦ rw e refl
  | inr e ↦
      let padded = file ++ zeros (offset - length file) in
      rw e (
        take-left k (take offset padded) _ (
          omega (
            arith,
            length-take offset padded,
            length-append file (zeros (offset - length file)),
            h,
            l,
          ))
        ∙ take-take k offset padded h
        ∙ take-left k file (zeros (offset - length file)) l)
]

pub block-write_at :
    (k n : ℕ) (payload : Bytes) (offset : ℕ) (file : Bytes)
    → k + n ≤ offset
    → k + n ≤ length file
    → take n (drop k (write_at payload offset file)) ≡ take n (drop k file)
block-write_at k n payload offset file h l =
    let e : k + n - k ≡ n = omega arith in
    ap (λ (m : ℕ). take m (drop k (write_at payload offset file))) (sym e)
    ∙ sym (drop-take k (k + n) (write_at payload offset file))
    ∙ ap (drop k) (take-write_at (k + n) payload offset file h l)
    ∙ drop-take k (k + n) file
    ∙ ap (λ (m : ℕ). take m (drop k file)) e
